-- ===== src/Auth.antt =====
-- auth/auth.ts: the options that it gives Better Auth, as a value. The update hook is in Roles.
pub mod Laws
mod Tests
use taksees.Prelude.{
  ℕ, ◌*◌, Bool, true, false, not, List, [], ◌∷◌, map, Option, none, some, Text, codes, includes,
  ◌===◌, ◌||◌, if◌then◌else◌, is_empty,
}
use taksees.Roles.{UserRole, super_admin, leader, servant, member}
use taksees.Config.{Environ, var}

-- `allAdminActions` and `allSessionActions`
abbrev pub all_admin_actions : List Text
all_admin_actions = map codes (
    "create" ∷ "list" ∷ "set-role" ∷ "ban" ∷ "impersonate" ∷ "impersonate-admins" ∷ "delete"
    ∷ "set-password" ∷ "set-email" ∷ "get" ∷ "update" ∷ [])

abbrev pub all_session_actions : List Text
all_session_actions = map codes ("list" ∷ "revoke" ∷ "delete" ∷ [])

-- The argument of `ac.newRole`.
pub record Statements : Type 0 where
  pub user : List Text
  pub session : List Text

-- `superAdminRole`, `leaderRole`, `servantRole` and `memberRole`, under the keys of `roles`
unfoldable pub statements_of : UserRole → Statements
statements_of super_admin = record { user = all_admin_actions; session = all_session_actions }
statements_of leader = record { user = []; session = [] }
statements_of servant = record { user = []; session = [] }
statements_of member = record { user = []; session = [] }

-- What a role may do on users or on sessions.
unfoldable pub permits : UserRole → Text → Bool
permits role action =
    includes (statements_of role).user action || includes (statements_of role).session action

abbrev pub default_role : UserRole
default_role = member

abbrev pub admin_roles : List UserRole
admin_roles = super_admin ∷ []

pub record Google : Type 0 where
  pub client_id : Text
  pub client_secret : Text
  pub redirect_uri : Option Text
  pub hd : Option Text
  pub scope : List Text

-- `additionalFields.phone`
pub record PhoneField : Type 0 where
  pub required : Bool
  pub input : Bool

pub record Session : Type 0 where
  pub expires_in : ℕ
  pub update_age : ℕ
  pub cache_enabled : Bool
  pub cache_max_age : ℕ

-- An entry of `customRules`.
pub record Rule : Type 0 where
  pub path : Text
  pub window : ℕ
  pub max : ℕ

pub record Options : Type 0 where
  pub email_and_password : Bool
  pub account_linking : Bool
  pub trusted_providers : List Text
  pub google : Google
  pub default_role : UserRole
  pub admin_roles : List UserRole
  pub roles : UserRole → Statements
  pub banned_user_message : Text
  pub phone : PhoneField
  pub session : Session
  pub cookie_prefix : Text
  pub use_secure_cookies : Bool
  pub rate_limit : Bool
  pub rules : List Rule
  pub trusted_origins : List Text

-- `isProd`
abbrev pub is_production : Option Text → Bool
is_production none = false
is_production (some s) = s === codes "production"

-- `v ?? ''`, and `v || undefined`
abbrev or_nothing : Option Text → Text
or_nothing none = []
or_nothing (some s) = s

abbrev unless_empty : Option Text → Option Text
unless_empty none = none
unless_empty (some s) = if is_empty s then none else some s

-- The argument of `betterAuth`.
unfoldable pub options : Environ → Options
options env = record {
  email_and_password = not (is_production (var (codes "NODE_ENV") env));
  account_linking = true;
  trusted_providers = codes "google" ∷ [];
  google = record {
    client_id = or_nothing (var (codes "GOOGLE_CLIENT_ID") env);
    client_secret = or_nothing (var (codes "GOOGLE_CLIENT_SECRET") env);
    redirect_uri = var (codes "GOOGLE_REDIRECT_URI") env;
    hd = unless_empty (var (codes "GOOGLE_WORKSPACE_HD") env);
    scope = map codes ("openid" ∷ "email" ∷ "profile" ∷ []);
  };
  default_role = default_role;
  admin_roles = admin_roles;
  roles = statements_of;
  banned_user_message = codes "Your account has been suspended. Contact a Taksees administrator.";
  phone = record { required = false; input = false };
  session = record {
    expires_in = 60 * 60 * 24 * 7;
    update_age = 60 * 60 * 24;
    cache_enabled = true;
    cache_max_age = 5 * 60;
  };
  cookie_prefix = codes "taksees";
  use_secure_cookies = is_production (var (codes "NODE_ENV") env);
  rate_limit = true;
  rules =
      record { path = codes "/sign-in/social"; window = 60; max = 10 }
      ∷ record { path = codes "/sign-out"; window = 60; max = 30 }
      ∷ [];
  trusted_origins = map codes ("http://localhost:3000" ∷ "http://localhost:5173" ∷ []);
}
