-- ===== src/Session/Kwargs.antt =====
-- The construction of a SnowflakeSession in ingestion/src/trade_sim/loaders/snowflake_loader.py, and
-- the arguments that it connects with. Reading a private key is a parameter.
use snowflake_trade_pipeline.Prelude.{
  ℕ, String, ◌≡◌, refl, inl, inr, Bool, true, false, not, ◌&&◌, ◌||◌, Option, none, some,
  if◌then◌else◌, ◌==◌, ==_sound, string_eq, Bool-cases,
}
use snowflake_trade_pipeline.Result.{value_error, Result, ok, err, Yields, Yields-ok, Result-cases}
use snowflake_trade_pipeline.Deploy.Texts.{append, strip, strip_left, strip_right}
use snowflake_trade_pipeline.Settings.{
  SnowflakeSettings, or_default, is_given, is_key_file, require_one_credential,
}

-- What the session is for: the settings with the caller's overrides.
pub record Purpose : Type 0 where
  pub settings : SnowflakeSettings
  pub warehouse : String
  pub role : String
  pub schema : String
  pub query_tag : String

unfoldable pub purpose :
    SnowflakeSettings → Option String → Option String → Option String → String → Purpose
unfolding or_default
purpose settings warehouse role schema query_tag_suffix = record {
  settings = settings;
  warehouse = or_default warehouse settings.warehouse;
  role = or_default role settings.role;
  schema = or_default schema settings.schema_name;
  query_tag = append settings.query_tag_prefix (append "|" query_tag_suffix);
}

pub data Credential : Type 0 where
  private_key : String → Credential
  password : String → Credential
  no_credential : Credential

pub record ConnectKwargs : Type 0 where
  pub account : String
  pub user : String
  pub role : String
  pub warehouse : String
  pub database : String
  pub schema : String
  pub login_timeout : ℕ
  pub network_timeout : ℕ
  pub query_tag : String
  pub error_on_nondeterministic_merge : Bool
  pub error_on_nondeterministic_update : Bool
  pub timezone : String
  pub timestamp_type_mapping : String
  pub client_session_keep_alive : Bool
  pub credential : Credential

-- `s or None`
unfoldable pub non_empty : Option String → Option String
non_empty none = none
non_empty (some s) = if s == "" then none else some s

is_given-blank : (p : String) → (p == "") ≡ true → is_given (some p) ≡ false
unfolding is_given strip strip_left strip_right
is_given-blank p e = rw (==_sound p "" e) refl

one_given :
    (a b c : Bool) (s : SnowflakeSettings)
    → (if not a && not b then err value_error else if a && not c then err value_error else ok s)
      ≡ ok s
    → (a || b) ≡ true
one_given true b c s e = refl
one_given false true c s e = refl
one_given false false c s e = absurd cc

module _ (load_private_key : String → Option String → Result String) where
  -- A path is true whatever its text, and a password unless it is empty.
  unfoldable pub credential_from : Option String → Option String → Option String → Result Credential
  unfolding non_empty
  credential_from (some path) passphrase given =
      elim (load_private_key path (non_empty passphrase)) [
        | ok key ↦ ok (private_key key)
        | err e ↦ err e
      ]
  credential_from none passphrase none = ok no_credential
  credential_from none passphrase (some p) = if p == "" then ok no_credential else ok (password p)

  unfoldable pub credential_of : SnowflakeSettings → Result Credential
  unfolding credential_from
  credential_of s = credential_from s.private_key_path s.private_key_passphrase s.password

  unfoldable pub connect_kwargs : Purpose → Result ConnectKwargs
  unfolding credential_of
  connect_kwargs p = elim (credential_of p.settings) [
    | err e ↦ err e
    | ok c ↦ ok record {
      account = p.settings.account;
      user = p.settings.user;
      role = p.role;
      warehouse = p.warehouse;
      database = p.settings.database;
      schema = p.schema;
      login_timeout = p.settings.login_timeout_seconds;
      network_timeout = p.settings.network_timeout_seconds;
      query_tag = p.query_tag;
      error_on_nondeterministic_merge = true;
      error_on_nondeterministic_update = true;
      timezone = "UTC";
      timestamp_type_mapping = "TIMESTAMP_LTZ";
      client_session_keep_alive = true;
      credential = c;
    }
  ]

  -- The credential used: the key of the path that is set, or else the password, which is not blank.
  abbrev pub IsCredential : Option String → Option String → Option String → Credential → Type 0
  IsCredential path passphrase given (private_key key) =
      (file : String) × (path ≡ some file) × (load_private_key file (non_empty passphrase) ≡ ok key)
  IsCredential path passphrase given (password p) =
      (path ≡ none) × (given ≡ some p) × (is_given given ≡ true)
  IsCredential path passphrase given no_credential = ⊥

  abbrev pub IsAuthenticated : SnowflakeSettings → Credential → Type 0
  IsAuthenticated s = IsCredential s.private_key_path s.private_key_passphrase s.password

  credential_from-IsCredential :
      (path passphrase given : Option String)
      → (is_given path || is_given given) ≡ true
      → Yields (IsCredential path passphrase given) (credential_from path passphrase given)
  unfolding credential_from is_given
  credential_from-IsCredential (some path) passphrase given h =
      elim (Result-cases (load_private_key path (non_empty passphrase))) [
        | inl (key, e) ↦ rw (e, credential_from) (path, refl, e)
        | inr (x, e) ↦ rw (e, credential_from) tt
      ]
  credential_from-IsCredential none passphrase none h = absurd cc
  credential_from-IsCredential none passphrase (some p) h = elim (Bool-cases (p == "")) [
    | inl e ↦ absurd (cc (h, is_given-blank p e))
    | inr e ↦ rw (e, credential_from) (refl, refl, h)
  ]

  is_given_one :
      (is_file : String → Bool) (s : SnowflakeSettings)
      → require_one_credential is_file s ≡ ok s
      → (is_given s.private_key_path || is_given s.password) ≡ true
  unfolding require_one_credential
  is_given_one is_file s e =
      one_given (is_given s.private_key_path) (is_given s.password)
        (is_key_file is_file s.private_key_path) s e

  connect_kwargs-Yields :
      (is_file : String → Bool) (p : Purpose)
      → require_one_credential is_file p.settings ≡ ok p.settings
      → Yields (λ k. IsAuthenticated p.settings k.credential) (connect_kwargs p)
  unfolding connect_kwargs credential_of
  connect_kwargs-Yields is_file p valid =
      let s = p.settings in
      elim (Result-cases (credential_of s)) [
        | inr (x, e) ↦ rw (e, connect_kwargs) tt
        | inl (c, e) ↦
            rw (e, connect_kwargs)
              (Yields-ok (IsAuthenticated s) e (
                credential_from-IsCredential s.private_key_path s.private_key_passphrase s.password
                  (is_given_one is_file s valid)))
      ]

  -- Settings that were accepted lead to no connection without a credential: the arguments, if they
  -- can be built, carry the private key where a path is set, and else a password that is not blank.
  pub connect_kwargs-IsAuthenticated :
      (is_file : String → Bool) (p : Purpose) (k : ConnectKwargs)
      → require_one_credential is_file p.settings ≡ ok p.settings
      → connect_kwargs p ≡ ok k
      → IsAuthenticated p.settings k.credential
  connect_kwargs-IsAuthenticated is_file p k valid e =
      Yields-ok (λ k. IsAuthenticated p.settings k.credential) e
        (connect_kwargs-Yields is_file p valid)
