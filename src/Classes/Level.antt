-- ===== src/Classes/Level.antt =====
-- domain/value-objects/class-level.vo.ts
use taksees.Prelude.{Bool, List, [], ◌∷◌, map, Text, codes, includes}

pub data ClassLevel : Type 0 where
  primary_1 primary_2 primary_3 primary_4 primary_5 primary_6 secondary college : ClassLevel

-- The string that a value of the TypeScript union is.
abbrev pub level_name : ClassLevel → Text
level_name primary_1 = codes "PRIMARY_1"
level_name primary_2 = codes "PRIMARY_2"
level_name primary_3 = codes "PRIMARY_3"
level_name primary_4 = codes "PRIMARY_4"
level_name primary_5 = codes "PRIMARY_5"
level_name primary_6 = codes "PRIMARY_6"
level_name secondary = codes "SECONDARY"
level_name college = codes "COLLEGE"

-- `CLASS_LEVELS`
abbrev pub class_levels : List ClassLevel
class_levels =
    primary_1 ∷ primary_2 ∷ primary_3 ∷ primary_4 ∷ primary_5 ∷ primary_6 ∷ secondary ∷ college ∷ []

-- `isClassLevel(value)` on a string
unfoldable pub is_class_level : Text → Bool
is_class_level value = includes (map level_name class_levels) value
