-- ===== src/Adapters/Http.antt =====
-- What src/adapters uses of httpx, which is a parameter, and of the environment.
use banxe_payment_core.Prelude.{
  ℕ, String, nat_beq, Bool, true, false, if◌then◌else◌, Option, none, some, List, [], ◌∷◌, ◌++◌,
}
use banxe_payment_core.Exec.{Exc, Result, Exec, lift, ◌>>=◌, other}
use banxe_payment_core.Python.{Text, codes}
use banxe_payment_core.Json.{Value, Fields, end, obj}

pub data Verb : Type 0 where
  get post patch : Verb

pub record Request : Type 0 where
  pub verb : Verb
  pub url : Text
  pub headers : List (Text × Text)
  pub json : Option Value

-- The call and `raise_for_status`, given the requests made before; what it returns is what
-- `resp.json()` will do.
abbrev pub Http : Type 0
Http = List Request → Request → Result (Result Value)

-- A method over the requests that have been made.
abbrev pub Sent {ℓ} : Type ℓ → Type ℓ
Sent A = Exec (List Request) A

-- One request, without a look at the body of the answer.
abbrev pub send : Http → Request → Sent (Result Value)
send http r sent = (http sent r, sent ++ r ∷ [])

-- One request and the JSON body of the answer.
abbrev pub fetch : Http → Request → Sent Value
fetch http r = send http r >>= λ body. lift body

-- os.environ
abbrev pub Environment : Type 0
Environment = String → Option Text

abbrev env_get : Option Text → Text → Text
env_get none default = default
env_get (some t) default = t

-- value or os.environ.get(name, default)
abbrev pub or_env : Environment → String → Text → Option Text → Text
or_env environ name default none = env_get (environ name) default
or_env environ name default (some []) = env_get (environ name) default
or_env environ name default (some (c ∷ cs)) = c ∷ cs

abbrev onto_slashes : ℕ → Text → Text
onto_slashes c [] = if nat_beq c b'/' then [] else c ∷ []
onto_slashes c (d ∷ ds) = c ∷ d ∷ ds

-- url.rstrip("/")
unfoldable pub rstrip_slash : Text → Text
rstrip_slash [] = []
rstrip_slash (c ∷ cs) = onto_slashes c (rstrip_slash cs)

abbrev pub is_empty : Text → Bool
is_empty [] = true
is_empty (c ∷ cs) = false

-- metadata or {}
abbrev pub or_dict : Option Fields → Value
or_dict none = obj end
or_dict (some fs) = obj fs

abbrev pub not_implemented : String → Exc
not_implemented m = other "NotImplementedError" m

abbrev pub no_get : Exc
no_get = other "AttributeError" "object has no attribute 'get'"

abbrev pub json_type : Text × Text
json_type = (codes "Content-Type", codes "application/json")
