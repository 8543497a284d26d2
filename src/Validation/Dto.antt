-- ===== src/Validation/Dto.antt =====
-- modules/classes/dto/classes.dto.ts.
use taksees.Prelude.{false, [], ◌∷◌, map, codes, ◌===◌}
use taksees.Classes.Level.{level_name, class_levels}
use taksees.Validation.{
  Json, boolean, integer, text, has_keys, min_length, max_length, has_format, uuid, at_least,
  at_most, Schema, string, coerced_int, bool, enum, optional, nullable, default, array_of,
  object_of, union, refined, transformed, Fields, no_more, field,
}

abbrev name_schema : Schema
name_schema = string (min_length 2 ∷ max_length 120 ∷ [])

abbrev uuid_schema : Schema
uuid_schema = string (has_format uuid ∷ [])

abbrev pub class_level_schema : Schema
class_level_schema = enum (map level_name class_levels)

abbrev pub create_class_schema : Schema
create_class_schema = object_of (
    field (codes "name") name_schema (
      field (codes "level") class_level_schema
        (field (codes "leaderId") (string (min_length 1 ∷ [])) no_more)))

abbrev pub update_class_schema : Schema
update_class_schema = refined has_keys (codes "No fields to update.") (
    object_of (
      field (codes "name") (optional name_schema) (
        field (codes "level") (optional class_level_schema)
          (field (codes "leaderId") (optional (string (min_length 1 ∷ []))) no_more))))

abbrev pub page_schema : Schema
page_schema = default (integer 1) (coerced_int (at_least 1 ∷ []))

abbrev pub limit_schema : Schema
limit_schema = default (integer 20) (coerced_int (at_least 1 ∷ at_most 100 ∷ []))

abbrev pub list_classes_query_schema : Schema
list_classes_query_schema = object_of (
    field (codes "level") (optional class_level_schema) (
      field (codes "leaderId") (optional uuid_schema)
        (field (codes "page") page_schema (field (codes "limit") limit_schema no_more))))

abbrev pub phone_schema : Schema
phone_schema = nullable (optional (string (min_length 7 ∷ max_length 20 ∷ [])))

abbrev pub single_member_fields : Fields
single_member_fields = field (codes "fullName") name_schema (
    field (codes "phone") phone_schema
      (field (codes "userId") (nullable (optional uuid_schema)) no_more))

abbrev pub single_member_schema : Schema
single_member_schema = object_of single_member_fields

abbrev pub add_member_schema : Schema
add_member_schema =
    union single_member_schema
      (object_of (field (codes "members") (array_of single_member_schema 1 200) no_more))

abbrev pub update_member_schema : Schema
update_member_schema = refined has_keys (codes "No fields to update.") (
    object_of (
      field (codes "fullName") (optional name_schema)
        (field (codes "phone") phone_schema (field (codes "isActive") (optional bool) no_more))))

-- `typeof v === 'boolean' ? v : v === 'true'`
abbrev pub flag_of : Json → Json
flag_of (boolean b) = boolean b
flag_of (text s) = boolean (s === codes "true")
flag_of _ = boolean false

abbrev pub list_members_query_schema : Schema
list_members_query_schema = object_of (
    field (codes "q") (optional (string (max_length 120 ∷ []))) (
      field (codes "isActive")
        (optional (transformed flag_of (union bool (enum (codes "true" ∷ codes "false" ∷ [])))))
        (field (codes "page") page_schema (field (codes "limit") limit_schema no_more))))

abbrev pub assign_servant_schema : Schema
assign_servant_schema = object_of (field (codes "userIds") (array_of uuid_schema 1 50) no_more)

abbrev pub class_id_param_schema : Schema
class_id_param_schema = object_of (field (codes "id") uuid_schema no_more)

abbrev pub class_id_path_param_schema : Schema
class_id_path_param_schema = object_of (field (codes "classId") uuid_schema no_more)

abbrev pub member_id_param_schema : Schema
member_id_param_schema = object_of (field (codes "id") uuid_schema no_more)

abbrev pub servant_param_schema : Schema
servant_param_schema =
    object_of (field (codes "id") uuid_schema (field (codes "userId") uuid_schema no_more))
