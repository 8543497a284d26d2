-- ===== src/Validation.antt =====
-- Requests as values, and the schemas that common/pipes/zod-validation.pipe.ts, the request schemas
-- and the environment's schema are written in. The schemas are values; the library Zod that runs
-- them is a parameter, and what it promises of the data that it returns is `Output`.
pub mod Dto
pub mod Decode
pub mod Pipe
pub mod Laws
pub mod Checker
mod Tests
use taksees.Prelude.{
  ℕ, zero, suc, ◌+◌, ◌≤◌, ◌≡◌, ◌⊎◌, Bool, true, false, ◌&&◌, List, [], ◌∷◌, Text, length, includes,
  starts_with, ◌===◌, if◌then◌else◌,
}

mutual
  -- A JavaScript value: `integer` is a natural number, and `other_number` any number that is none.
  pub data Json : Type 0 where
    undefined : Json
    null : Json
    boolean : Bool → Json
    integer : ℕ → Json
    other_number : Json
    text : Text → Json
    array : Items → Json
    object : Members → Json

  pub data Items : Type 0 where
    no_items : Items
    item : Json → Items → Items

  pub data Members : Type 0 where
    no_members : Members
    entry : Text → Json → Members → Members

-- `object[key]`
abbrev pub member_at : Text → Members → Json
member_at key no_members = undefined
member_at key (entry k v more) = if k === key then v else member_at key more

abbrev pub count_items : Items → ℕ
count_items no_items = 0
count_items (item v more) = suc (count_items more)

-- `Object.keys(object).length > 0`
abbrev pub has_keys : Json → Bool
has_keys (object (entry k v more)) = true
has_keys _ = false

-- The formats of texts that Zod knows.
pub data Format : Type 0 where
  uuid email url : Format

-- `.min(n)`, `.max(n)`, `.uuid()` and the like, `.startsWith(prefix)`
pub data TextCheck : Type 0 where
  min_length max_length : ℕ → TextCheck
  has_format : Format → TextCheck
  begins : Text → TextCheck

-- `.min(n)` and `.max(n)` on a whole number
pub data NumberCheck : Type 0 where
  at_least at_most : ℕ → NumberCheck

mutual
  pub data Schema : Type 0 where
    -- `z.string()` with its checks
    string : List TextCheck → Schema
    -- `z.coerce.number().int()` with its checks
    coerced_int : List NumberCheck → Schema
    -- `z.boolean()` and `z.enum(names)`
    bool : Schema
    enum : List Text → Schema
    -- `.optional()`, `.nullable()` and `.default(value)`
    optional nullable : Schema → Schema
    default : Json → Schema → Schema
    -- `z.array(schema).min(least).max(most)`
    array_of : Schema → (least most : ℕ) → Schema
    object_of : Fields → Schema
    -- `z.union([a, b])`, and `a.or(b)`
    union : Schema → Schema → Schema
    -- `.refine(test, { message })` and `.transform(f)`
    refined : (test : Json → Bool) → (message : Text) → Schema → Schema
    transformed : (f : Json → Json) → Schema → Schema

  pub data Fields : Type 0 where
    no_more : Fields
    field : Text → Schema → Fields → Fields

module _ (matches : Format → Text → Bool) where
  abbrev pub Passes : TextCheck → Text → Type 0
  Passes (min_length n) s = n ≤ length s
  Passes (max_length n) s = length s ≤ n
  Passes (has_format f) s = matches f s ≡ true
  Passes (begins prefix) s = starts_with s prefix ≡ true

  abbrev pub PassesAll : List TextCheck → Text → Type 0
  PassesAll [] s = Unit
  PassesAll (check ∷ checks) s = Passes check s × PassesAll checks s

abbrev pub IsWithin : List NumberCheck → ℕ → Type 0
IsWithin [] n = Unit
IsWithin (at_least m ∷ checks) n = (m ≤ n) × IsWithin checks n
IsWithin (at_most m ∷ checks) n = (n ≤ m) × IsWithin checks n

-- Whether the checks keep negative numbers out.
abbrev pub has_least : List NumberCheck → Bool
has_least [] = false
has_least (at_least m ∷ checks) = true
has_least (at_most m ∷ checks) = has_least checks

abbrev pub EachItem : (Json → Type 0) → Items → Type 0
EachItem P no_items = Unit
EachItem P (item v more) = P v × EachItem P more

abbrev pub names_of : Fields → List Text
names_of no_more = []
names_of (field key schema more) = key ∷ names_of more

-- Every key of an object is one of the names.
abbrev pub has_only : List Text → Members → Bool
has_only names no_members = true
has_only names (entry key v more) = includes names key && has_only names more

-- What Zod documents of the data that a schema gives, where `matches` are its formats.
module _ (matches : Format → Text → Bool) where
  abbrev mutual
    pub Output : Schema → Json → Type 0
    Output (string checks) v = (s : Text) × (v ≡ text s) × PassesAll matches checks s
    Output (coerced_int checks) v =
        ((n : ℕ) × (v ≡ integer n) × IsWithin checks n)
        ⊎ ((v ≡ other_number) × (has_least checks ≡ false))
    Output bool v = (b : Bool) × (v ≡ boolean b)
    Output (enum names) v = (s : Text) × (v ≡ text s) × (includes names s ≡ true)
    Output (optional schema) v = (v ≡ undefined) ⊎ Output schema v
    Output (nullable schema) v = (v ≡ null) ⊎ Output schema v
    Output (default value schema) v = (v ≡ value) ⊎ Output schema v
    Output (array_of schema least most) v =
        (vs : Items) × (v ≡ array vs)
        × (least ≤ count_items vs)
        × (count_items vs ≤ most)
        × EachItem (λ w. Output schema w) vs
    Output (object_of fields) v =
        (ms : Members) × (v ≡ object ms)
        × (has_only (names_of fields) ms ≡ true)
        × Outputs fields ms
    Output (union a b) v = Output a v ⊎ Output b v
    Output (refined test message schema) v = (test v ≡ true) × Output schema v
    Output (transformed f schema) v = (w : Json) × Output schema w × (v ≡ f w)

    pub Outputs : Fields → Members → Type 0
    Outputs no_more ms = Unit
    Outputs (field key schema more) ms = Output schema (member_at key ms) × Outputs more ms
