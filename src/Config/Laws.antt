-- ===== src/Config/Laws.antt =====
-- The allowed origins, and what a validated environment holds.
use taksees.Prelude.{
  ℕ, ◌≤◌, ◌≡◌, refl, sym, ap, ◌∙◌, ◌↔◌, inl, inr, Bool, true, false, not, ◌&&◌, ◌||◌, List, [], ◌∷◌,
  map, none, some, Text, codes, arith, all, length, ◌==◌, is_empty, keep, trim, is_space,
  is_empty-trim, split_on, onto_first, Bool-cases,
}
use taksees.Errors.{ok}
use taksees.Validation.{
  string, default, min_length, Json, integer, text, object, Members, member_at, Format, Schema,
  Output,
}
use taksees.Validation.Pipe.{Parsed, success, failure}
use taksees.Validation.Laws.Requests.{IsZod}
use taksees.Config.{
  default_secret, port_schema, env_schema, of_parsed, validate_env, origins, cors_origins, Origin,
  any_origin, one_of, cors_origin,
}

-- White space or a comma.
abbrev pub is_gap : ℕ → Bool
is_gap c = is_space c || c == b','

keep_none :
    (ts : List Text)
    → is_empty (keep (λ s. not (is_empty s)) (map trim ts)) ≡ all (λ t. all is_space t) ts
keep_none [] = refl
keep_none (t ∷ ts) = ground (arith, is_empty-trim t, keep_none ts)

all-onto_first :
    (c : ℕ) (ts : List Text)
    → all (λ t. all is_space t) (onto_first c ts) ≡ (is_space c && all (λ t. all is_space t) ts)
all-onto_first c [] = ground arith
all-onto_first c (t ∷ ts) = ground arith

all-split_on : (s : Text) → all (λ t. all is_space t) (split_on b',' s) ≡ all is_gap s
unfolding split_on
all-split_on [] = refl
all-split_on (c ∷ s) = elim (Bool-cases (c == b',')) [
  | inl sep ↦ rw (sep) (all-split_on s ∙ ground arith)
  | inr other ↦ rw (other) (
      all-onto_first c (split_on b',' s)
      ∙ ap (λ b. is_space c && b) (all-split_on s)
      ∙ ground arith)
]

is_any : Origin → Bool
is_any any_origin = true
is_any (one_of list) = false

any_origin_iff : (list : List Text) → (cors_origin list ≡ any_origin) ↔ (is_empty list ≡ true)
unfolding cors_origin is_any
any_origin_iff [] = (λ _. refl, λ _. refl)
any_origin_iff (t ∷ list) = (λ e. cc (ap is_any e), λ e. cc)

gap_of_empty : (value : Text) → is_empty value ≡ true → all is_gap value ≡ true
gap_of_empty [] h = refl
gap_of_empty (c ∷ value) h = cc

cors_empty : (value : Text) → is_empty (cors_origins (some value)) ≡ all is_gap value
unfolding cors_origins origins
cors_empty value = elim (Bool-cases (is_empty value)) [
  | inl blank ↦ rw blank (sym (gap_of_empty value blank))
  | inr given ↦ rw given (keep_none (split_on b',' value) ∙ all-split_on value)
]

-- The API is open to every origin exactly when CORS_ORIGINS is unset, or holds nothing but white
-- space and commas; any other text restricts it to a list.
pub any_origin-cors_iff :
    (value : Text)
    → (cors_origin (cors_origins none) ≡ any_origin)
      × ((cors_origin (cors_origins (some value)) ≡ any_origin) ↔ (all is_gap value ≡ true))
unfolding cors_origin cors_origins
any_origin-cors_iff value =
    (refl, rw (← cors_empty value) (any_origin_iff (cors_origins (some value))))

-- What the start of the program relies on in a validated environment.
pub record IsEnvironment (out : Json) : Type 0 where
  pub members : Members
  pub is_object : out ≡ object members
  pub port : ℕ
  pub port_is : member_at (codes "PORT") members ≡ integer port
  pub port_least : 1 ≤ port
  pub port_most : port ≤ 65535
  pub database_url : Text
  pub database_is : member_at (codes "DATABASE_URL") members ≡ text database_url
  pub database_given : 1 ≤ length database_url
  pub redis_url : Text
  pub redis_is : member_at (codes "REDIS_URL") members ≡ text redis_url
  pub redis_given : 1 ≤ length redis_url
  pub secret : Text
  pub secret_is : member_at (codes "FILE_SIGNING_SECRET") members ≡ text secret
  pub secret_long : 16 ≤ length secret

module _ (safe_parse : Schema → Json → Parsed) (matches : Format → Text → Bool)
    (lawful : IsZod safe_parse matches) where
  of_parsed-ok : (p : Parsed) (out : Json) → of_parsed p ≡ ok out → p ≡ success out
  of_parsed-ok (success v) out h = cc
  of_parsed-ok (failure issues) out h = cc

  text_read :
      (n : ℕ) (v : Json)
      → Output matches (string (min_length n ∷ [])) v
      → (s : Text) × (v ≡ text s) × (n ≤ length s)
  text_read n v (s, e, (least, _)) = (s, e, least)

  secret_read :
      (v : Json)
      → Output matches (default (text default_secret) (string (min_length 16 ∷ []))) v
      → (s : Text) × (v ≡ text s) × (16 ≤ length s)
  secret_read v (inl e) = (default_secret, e, omega arith)
  secret_read v (inr o) = text_read 16 v o

  port_read :
      (v : Json) → Output matches port_schema v → (n : ℕ) × (v ≡ integer n) × (1 ≤ n) × (n ≤ 65535)
  port_read v (inl e) = (3000, e, omega arith, omega arith)
  port_read v (inr (inl (n, e, (least, (most, _))))) = (n, e, least, most)
  port_read v (inr (inr (_, unbounded))) = cc

  -- If Zod's `safeParse` gives an output of the schema and `validateEnv` returns, its result has a
  -- port from 1 to 65535, the addresses of the database and of Redis, which are not empty, and a
  -- secret of at least 16 code units.
  pub validate_env-IsEnvironment :
      (config out : Json) → validate_env safe_parse config ≡ ok out → IsEnvironment out
  unfolding validate_env
  validate_env-IsEnvironment config out h =
      let (ms, e, _, fields) =
        lawful.sound env_schema config out (of_parsed-ok (safe_parse env_schema config) out h) in
      let (_, (port, (_, (database, (redis, (_, (_, (_, (_, (_, (_, (_, (secret, _))))))))))))) =
        fields in
      let (p, pe, lo, hi) = port_read _ port in
      let (d, de, dl) = text_read 1 _ database in
      let (r, re, rl) = text_read 1 _ redis in
      let (k, ke, kl) = secret_read _ secret in
      record {
        members = ms;
        is_object = e;
        port = p;
        port_is = pe;
        port_least = lo;
        port_most = hi;
        database_url = d;
        database_is = de;
        database_given = dl;
        redis_url = r;
        redis_is = re;
        redis_given = rl;
        secret = k;
        secret_is = ke;
        secret_long = kl;
      }
