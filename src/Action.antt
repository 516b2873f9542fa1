-- ===== src/Action.antt =====
-- Handlers that change a state and may raise: the exceptions of the service as one type, the
-- monad of the handlers, and `try`/`except`.
-- What was written before a raise stays written.
pub mod Atomic
pub mod Texts
use dsh_api.Prelude.{
  ℕ, String, ◌≡◌, refl, Bool, true, false, List, Option, none, some, ◌⊎◌, inl, inr,
}

-- The exceptions of cluster.py, service.py, plugin_service.py, catalog.py, mojang.py, feedback.py
-- and export_service.py. `other` is any further exception, with its type's name and its text.
pub data Error : Type 0 where
  cluster_error : (message : String) → Error
  server_not_found name_taken tenant_at_cap : (name : String) → Error
  create_in_progress : (name : String) → Error
  players_online : (count : ℕ) → Error
  unknown_username : (username : String) → Error
  plugin_selection_disabled : Error
  unknown_plugin plugin_not_selected : (slug : String) → Error
  plugin_required : (slug : String) → (dependents : List String) → Error
  server_busy : (state : String) → Error
  catalog_unavailable : (message : String) → Error
  feedback_not_found : ℕ → Error
  feedback_rate_limited : (limit : ℕ) → Error
  export_disabled : Error
  export_not_found : (id : String) → Error
  export_conflict : (message : String) → Error
  export_limit : (limit retry_after : ℕ) → Error
  invalid_area : (message : String) → Error
  invalid_token : (message : String) → Error
  value_error : (message : String) → Error
  other : (name message : String) → Error

pub data Result {ℓ} (A : Type ℓ) : Type ℓ where
  ok : A → Result A
  err : Error → Result A

pub Result-cases {ℓ} :
    {A : Type ℓ} (r : Result A) → ((a : A) × (r ≡ ok a)) ⊎ ((e : Error) × (r ≡ err e))
Result-cases (ok a) = inl (a, refl)
Result-cases (err e) = inr (e, refl)

abbrev pub Act {ℓ} : Type ℓ → Type ℓ → Type ℓ
Act S A = S → Result A × S

module _ {ℓ} {S A : Type ℓ} where
  abbrev pub pure : A → Act S A
  pure a s = (ok a, s)

  abbrev pub raise : Error → Act S A
  raise e s = (err e, s)

  -- A result that is already there.
  abbrev pub settle : Result A → Act S A
  settle r s = (r, s)

  -- Reads the state.
  abbrev pub reads : (S → A) → Act S A
  reads f s = (ok (f s), s)

module _ {ℓ} {S A B : Type ℓ} where
  abbrev pub carry_on : Result A → (A → Act S B) → Act S B
  carry_on (ok a) f s = f a s
  carry_on (err e) f s = (err e, s)

  infixl 5 ◌>>=◌ ◌>>◌
  abbrev pub ◌>>=◌ : Act S A → (A → Act S B) → Act S B
  ◌>>=◌ m f s = let (r, s') = m s in carry_on r f s'

  abbrev pub ◌>>◌ : Act S A → Act S B → Act S B
  m >> n = m >>= λ _. n

module _ {ℓ} {S A B : Type ℓ} where
  -- `try: body` / `except Exception as exc: handler` / `else: rest`.
  abbrev pub attempted : Result A → (A → Act S B) → (Error → Act S B) → Act S B
  attempted (ok a) rest handler = rest a
  attempted (err e) rest handler = handler e

  abbrev pub attempt : Act S A → (A → Act S B) → (Error → Act S B) → Act S B
  attempt m rest handler s = let (r, s') = m s in attempted r rest handler s'

-- `if test: body`
abbrev pub when : {S : Type 0} → Bool → Act S (Unit {0}) → Act S (Unit {0})
when true m = m
when false m = pure tt

-- `if test: raise e`
abbrev pub refuse_if : {S : Type 0} → Bool → Error → Act S (Unit {0})
refuse_if true e = raise e
refuse_if false e = pure tt
