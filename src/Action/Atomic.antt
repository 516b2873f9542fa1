-- ===== src/Action/Atomic.antt =====
-- Handlers that undo nothing because they have nothing to undo: where one raises, a part of the
-- state is as it was.
use dsh_api.Prelude.{◌≡◌, refl, ◌∙◌, arith, Bool, true, false}
use dsh_api.Action.{refuse_if, Act, Result, Error, ok, err, carry_on, ◌>>=◌}

module _ {S V : Type 0} (part : S → V) where
  -- The handler never changes the part.
  abbrev pub Reads : {A : Type 0} → Act S A → Type 0
  Reads m = (s : S) → part (m s).1 ≡ part s

  -- The handler does not change the part where it raises.
  abbrev pub IsAtomic : {A : Type 0} → Act S A → Type 0
  IsAtomic m = (s : S) (e : Error) → (m s).0 ≡ err e → part (m s).1 ≡ part s

  pub reads-IsAtomic : {A : Type 0} (m : Act S A) → Reads m → IsAtomic m
  reads-IsAtomic m h s e failed = h s

  pub refuse_if-Reads : (test : Bool) (e : Error) → Reads (refuse_if test e)
  refuse_if-Reads true e s = refl
  refuse_if-Reads false e s = refl

  -- What only reads does not matter afterwards.
  pub after_bind :
      {A B : Type 0} (m : Act S A) (f : A → Act S B)
      → ((a : A) → Reads (f a))
      → (s : S) → part ((m >>= f) s).1 ≡ part (m s).1
  after_bind m f k s = go (m s).0 (m s).1
    where
      go : (r : Result _) (t : S) → part (carry_on r f t).1 ≡ part t
      go (ok a) t = k a t
      go (err x) t = refl

  -- One after the other.
  pub reads_bind :
      {A B : Type 0} (m : Act S A) (f : A → Act S B)
      → Reads m
      → ((a : A) → Reads (f a))
      → Reads (m >>= f)
  reads_bind m f h k s = go (m s).0 (m s).1 (h s)
    where
      go : (r : Result _) (t : S) → part t ≡ part s → part (carry_on r f t).1 ≡ part s
      go (ok a) t same = k a t ∙ same
      go (err x) t same = same

  -- First reads, then an atomic handler.
  module _ {A B : Type 0} (m : Act S A) (f : A → Act S B) where
    pub read_then : Reads m → ((a : A) → IsAtomic (f a)) → IsAtomic (m >>= f)
    read_then h k s e failed = go (m s).0 (m s).1 (h s) failed
      where
        go :
            (r : Result A) (t : S)
            → part t ≡ part s
            → (carry_on r f t).0 ≡ err e
            → part (carry_on r f t).1 ≡ part s
        go (ok a) t same failed = k a t e failed ∙ same
        go (err x) t same failed = same

    -- First an atomic handler, then one that does not raise.
    pub then_safe :
        IsAtomic m → ((a : A) (s : S) → (b : B) × ((f a s).0 ≡ ok b)) → IsAtomic (m >>= f)
    then_safe h k s e failed = go (m s).0 (m s).1 (h s) failed
      where
        go :
            (r : Result A) (t : S)
            → ((x : Error) → r ≡ err x → part t ≡ part s)
            → (carry_on r f t).0 ≡ err e
            → part (carry_on r f t).1 ≡ part s
        go (ok a) t same failed = let (b, fine) = k a t in absurd (ground (arith, fine, failed))
        go (err x) t same failed = same x refl

-- What the result satisfies, if there is one.
abbrev pub Yields : {S A : Type 0} → (A → Type 0) → Act S A → Type 0
Yields {S = S} {A = A} P m = (s : S) (a : A) → (m s).0 ≡ ok a → P a

pub bind-Yields :
    {S A B : Type 0} (P : B → Type 0) (m : Act S A) (f : A → Act S B)
    → ((a : A) → Yields P (f a))
    → Yields P (m >>= f)
bind-Yields P m f h s b done = go (m s).0 (m s).1 done
  where
    go : (r : Result _) (t : _) → (carry_on r f t).0 ≡ ok b → P b
    go (ok a) t fine = h a t b fine
    go (err x) t fine = absurd (ground (arith, fine))
