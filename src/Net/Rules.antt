-- ===== src/Net/Rules.antt =====
-- Rules for what holds at the end of a run of the socket programs.
use linux_systemprogramming.Common.{ℕ, Bool, true, false, Option, none, some, ◌∷◌}
use linux_systemprogramming.Common.Text.{CString}
use linux_systemprogramming.Net.Calls.{
  Event, complained, Trace, Outcome, returned, exited, running, Net, pure, ◌>>=◌, die, checked,
  test,
}

-- The condition on a run: `Q` where it returns, `E` where it exits, nothing while it is in a loop.
abbrev pub Ends : {A : Type 0} → (A → Trace → Type 0) → (ℕ → Trace → Type 0) → Outcome A → Type 0
Ends Q E (returned a t) = Q a t
Ends Q E (exited n t) = E n t
Ends Q E (running t) = Unit

pub Ends-bind :
    {A B : Type 0} (P : A → Trace → Type 0) (Q : B → Trace → Type 0) (E : ℕ → Trace → Type 0)
    (m : Net A) (f : A → Net B) (t : Trace)
    → Ends P E (m t)
    → ((a : A) (t' : Trace) → P a t' → Ends Q E (f a t'))
    → Ends Q E ((m >>= f) t)
Ends-bind {A} P Q E m f t h next = go (m t) h
  where
    go :
        (o : Outcome A)
        → Ends P E o
        → Ends Q E (elim o [
          | returned a t' ↦ f a t'
          | exited n t' ↦ exited n t'
          | running t' ↦ running t'
        ])
    go (returned a t') h = next a t' h
    go (exited n t') h = h
    go (running t') h = tt

-- The rules for a call whose result is tested, and what follows it.
module _ {B : Type 0} (s : CString) (n : ℕ) (t : Trace) (Q : B → Trace → Type 0)
    (E : ℕ → Trace → Type 0) where
  pub after_checked :
      {A : Type 0} (reply : Trace → Option A) (event : Option A → Event) (f : A → Net B)
      → E n (complained s ∷ event none ∷ t)
      → ((a : A) → Ends Q E (f a (event (some a) ∷ t)))
      → Ends Q E ((checked s n (λ t'. returned (reply t') (event (reply t') ∷ t')) >>= f) t)
  after_checked {A} reply event f failed next = go (reply t)
    where
      go :
          (r : Option A)
          → Ends Q E (
              ((λ t'. returned r (event r ∷ t))
                  >>= (λ x. elim x [ none ↦ die s n | some a ↦ pure a ])
                  >>= f)
                t)
      go none = failed
      go (some a) = next a

  pub after_test :
      (reply : Trace → Bool) (event : Bool → Event) (f : Unit {0} → Net B)
      → E n (complained s ∷ event false ∷ t)
      → Ends Q E (f tt (event true ∷ t))
      → Ends Q E ((test s n (λ t'. returned (reply t') (event (reply t') ∷ t')) >>= f) t)
  after_test reply event f failed next = go (reply t)
    where
      go :
          (r : Bool)
          → Ends Q E (
              ((λ t'. returned r (event r ∷ t))
                  >>= (λ x. elim x [ false ↦ die s n | true ↦ pure tt ])
                  >>= f)
                t)
      go false = failed
      go true = next
