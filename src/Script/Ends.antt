-- ===== src/Script/Ends.antt =====
-- Rules for what holds when a handler does not raise.
use dsh_api.Prelude.{◌≡◌, refl, sym, arith}
use dsh_api.Action.{Act, Result, ok, err, carry_on, ◌>>=◌, pure}

-- What holds of the value and the state, if the handler does not raise.
abbrev pub Ends : {S A : Type 0} → (A → S → Type 0) → Act S A → S → Type 0
Ends {S = S} {A = A} Q m s = (a : A) → (m s).0 ≡ ok a → Q a (m s).1

pub bind-Ends :
    {S A B : Type 0} (P : A → S → Type 0) (Q : B → S → Type 0) (m : Act S A) (f : A → Act S B)
    (s : S)
    → Ends P m s
    → ((a : A) (t : S) → P a t → Ends Q (f a) t)
    → Ends Q (m >>= f) s
bind-Ends P Q m f s h k b done = go (m s).0 (m s).1 h done
  where
    go :
        (r : Result _) (t : _)
        → ((a : _) → r ≡ ok a → P a t)
        → (carry_on r f t).0 ≡ ok b
        → Q b (carry_on r f t).1
    go (ok a) t first fine = k a t (first a refl) b fine
    go (err x) t first fine = absurd (ground (arith, fine))

-- Where nothing of the first handler is needed.
pub then-Ends :
    {S A B : Type 0} (Q : B → S → Type 0) (m : Act S A) (f : A → Act S B) (s : S)
    → ((a : A) (t : S) → Ends Q (f a) t)
    → Ends Q (m >>= f) s
then-Ends Q m f s k = bind-Ends (λ _ _. Unit) Q m f s (λ _ _. tt) λ a t _. k a t

pub pure-Ends : {S A : Type 0} (Q : A → S → Type 0) (a : A) (s : S) → Q a s → Ends Q (pure a) s
pure-Ends Q a s q b done = let same : a ≡ b = ground (arith, done) in rw (sym same) q
