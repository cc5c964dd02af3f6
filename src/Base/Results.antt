-- ===== src/Base/Results.antt =====
-- A request handler's outcome: a value, or the `HTTPException` that it raises.
use Prim.Native.Nat.{ℕ}
use mathlib.Core.Path.{◌≡◌, refl}
use mathlib.Core.Bool.{Bool, true, false}
use rc_tunnel.Base.Strings.{Text}

-- What the `detail` of an exception says. Texts that the source interpolates are arguments.
pub data Detail : Type 0 where
  not_found agent_not_found tunnel_not_found node_not_found team_not_found user_not_found : Detail
  needs_host bad_health_check too_many_domains under_apex no_free_ports tunnel_limit : Detail
  tunnel_name_exists agent_name_exists team_name_exists node_name_exists : Detail
  label_is_taken team_name_required has_members has_agents last_admin own_account : Detail
  email_in_use wrong_password invalid_credentials too_many_attempts integrity_error : Detail
  not_authenticated invalid_token session_expired admin_required team_admin_required : Detail
  invalid_bootstrap_token token_already_used bad_csr empty_name bad_name : Detail
  label_taken bad_label reserved_label bad_domain domain_claimed subdomain_taken : Text → Detail
  too_deep port_out_of_range port_taken : ℕ → Detail

-- `raise HTTPException(status, detail)`
pub record HttpException : Type 0 where
  pub status : ℕ
  pub detail : Detail

pub data Result {ℓ} (X : Type ℓ) : Type ℓ where
  ok : X → Result X
  err : HttpException → Result X

abbrev pub raise {ℓ} : {A : Type ℓ} → ℕ → Detail → Result A
raise s d = err (record { status = s; detail = d })

infixl 5 ◌>>=◌ ◌>>◌
abbrev pub ◌>>=◌ {ℓ κ} :
    {X : Type ℓ} {Y : Type κ} (first : Result X) (next : X → Result Y) → Result Y
err why >>= next = err why
ok x >>= next = next x

-- a check, and what comes after it
abbrev pub ◌>>◌ {ℓ} : {Y : Type ℓ} (check : Result (Unit {0})) (rest : Result Y) → Result Y
check >> rest = check >>= (λ passed. rest)

-- `if test: raise HTTPException(status, detail)`
abbrev pub reject_if : Bool → ℕ → Detail → Result (Unit {0})
reject_if true status detail = raise status detail
reject_if false status detail = ok tt

-- A chain that succeeds: its first step did, and so did the rest on what the step gave.
pub >>=-elim {ℓ κ μ} :
    {X : Type ℓ} {Y : Type κ} {Goal : Type μ} (first : Result X) (next : X → Result Y) {y : Y}
    → (first >>= next) ≡ ok y
    → ((x : X) → first ≡ ok x → next x ≡ ok y → Goal)
    → Goal
>>=-elim (err why) next h use_it = absurd (cc)
>>=-elim (ok x) next h use_it = use_it x refl h

pub >>=-eq-ok {ℓ κ} :
    {X : Type ℓ} {Y : Type κ} (first : Result X) (next : X → Result Y) {y : Y}
    → (first >>= next) ≡ ok y
    → (x : X) × (first ≡ ok x) × (next x ≡ ok y)
>>=-eq-ok first next h = >>=-elim first next h (λ x step rest. (x, step, rest))

pub ok-pair {ℓ κ} :
    {A : Type ℓ} {B : Type κ} {a c : A} {b d : B}
    → ◌≡◌ {A = Result (A × B)} (ok (a, b)) (ok (c, d))
    → (c ≡ a) × (d ≡ b)
ok-pair h = (cc, cc)

-- the state after a request: what is refused is rolled back
abbrev pub state_or {ℓ} : {A : Type ℓ} → A → Result A → A
state_or p (ok p') = p'
state_or p (err why) = p

abbrev pub row_or {ℓ κ} : {A : Type ℓ} {B : Type κ} → A → Result (A × B) → A
row_or p (ok (p', row)) = p'
row_or p (err why) = p

-- What a request keeps if it succeeds, it keeps.
pub state_or-keeps {ℓ κ} :
    {A : Type ℓ} (P : A → Type κ) (p : A) (r : Result A)
    → P p
    → ((p' : A) → r ≡ ok p' → P p')
    → P (state_or p r)
state_or-keeps P p (ok p') k f = f p' refl
state_or-keeps P p (err why) k f = k

pub row_or-keeps {ℓ κ μ} :
    {A : Type ℓ} {B : Type κ} (P : A → Type μ) (p : A) (r : Result (A × B))
    → P p
    → ((p' : A) (row : B) → r ≡ ok (p', row) → P p')
    → P (row_or p r)
row_or-keeps P p (ok (p', row)) k f = f p' row refl
row_or-keeps P p (err why) k f = k
