-- ===== src/Transport/NamespaceLocks.antt =====
-- fabricfs-transport/src/policy.rs, `NamespaceLocks`: one dispatch at a time in each namespace. A step
-- is what a thread does under the mutex: `enter` when it finds the namespace free (a thread that finds
-- it taken waits and looks again), or the drop of a guard. `guards` are the namespaces of the guards
-- that exist; the mutex and the wake-ups are not modelled.
use mathlib.Core.Option
use fabric_fs.Prelude.{
  ◌≡◌, refl, sym, ◌∙◌, Bool, true, false, ◌&&◌, not, Option, none, some, List, [], ◌∷◌, String,
  ◌===◌, string_eq, if◌then◌else◌, arith,
}
use fabric_fs.Prelude.Names.{contains, without, add, contains-without, contains-add, IsDistinct}

pub record NamespaceLocks : Type 0 where
  pub active : List String
  pub guards : List String

unfoldable pub no_guards : NamespaceLocks
no_guards = record { active = []; guards = [] }

-- One pass of the loop of `enter`: `none` where the thread waits.
unfoldable pub enter : NamespaceLocks → String → Option NamespaceLocks
enter locks namespace =
    if contains locks.active namespace
    then none
    else some (record { active = add locks.active namespace; guards = namespace ∷ locks.guards })

-- The first of the guards of that namespace goes, as in a list of guards.
unfoldable pub take_guard : List String → String → List String
take_guard [] namespace = []
take_guard (g ∷ guards) namespace =
    let rest = take_guard guards namespace in if g === namespace then guards else g ∷ rest

unfoldable pub drop_guard : NamespaceLocks → String → NamespaceLocks
drop_guard locks namespace = record {
  active = without locks.active namespace;
  guards = take_guard locks.guards namespace;
}

pub data Reached : NamespaceLocks → Type 0 where
  unlocked : Reached no_guards
  entered :
      (locks locks' : NamespaceLocks) (namespace : String)
      → Reached locks
      → enter locks namespace ≡ some locks'
      → Reached locks'
  dropped :
      (locks : NamespaceLocks) (namespace : String)
      → Reached locks
      → contains locks.guards namespace ≡ true
      → Reached (drop_guard locks namespace)

-- No namespace has two guards, and the active namespaces are those of the guards.
pub record IsExclusive (locks : NamespaceLocks) : Type 0 where
  pub distinct : IsDistinct locks.guards
  pub agree : (s : String) → contains locks.active s ≡ contains locks.guards s

take_guard-contains :
    (guards : List String) (namespace s : String)
    → IsDistinct guards
    → contains (take_guard guards namespace) s ≡ (not (namespace === s) && contains guards s)
unfolding take_guard contains
take_guard-contains [] namespace s d = ground arith
take_guard-contains (g ∷ guards) namespace s (out, d) = ground (
  arith,
  take_guard-contains guards namespace s d,
  string_eq.beq_iff g namespace,
  string_eq.beq_iff g s,
  string_eq.beq_iff namespace s,
)

take_guard-IsDistinct :
    (guards : List String) (namespace : String)
    → IsDistinct guards
    → IsDistinct (take_guard guards namespace)
unfolding take_guard
take_guard-IsDistinct [] namespace d = tt
take_guard-IsDistinct (g ∷ guards) namespace (out, d) =
    step (g === namespace) (take_guard-IsDistinct guards namespace d)
  where
    step :
        (b : Bool)
        → IsDistinct (take_guard guards namespace)
        → IsDistinct (if b then guards else g ∷ take_guard guards namespace)
    step true rest = d
    step false rest = (ground (arith, take_guard-contains guards namespace g d), rest)

enter-IsExclusive :
    (locks locks' : NamespaceLocks) (namespace : String)
    → IsExclusive locks
    → enter locks namespace ≡ some locks'
    → IsExclusive locks'
unfolding enter
enter-IsExclusive locks locks' namespace x = go (contains locks.active namespace) refl
  where
    go :
        (b : Bool)
        → contains locks.active namespace ≡ b
        → ◌≡◌ {A = Option NamespaceLocks}
            (if b
              then none
              else some (record {
                active = add locks.active namespace;
                guards = namespace ∷ locks.guards;
              }))
            (some locks')
        → IsExclusive locks'
    go true e h = absurd (cc)
    go false e h = rw (sym (Option.some-injective _ _ h)) (record {
      distinct = (sym (x.agree namespace) ∙ e, x.distinct);
      agree =
          λ s. unfold contains in ground (arith, contains-add locks.active namespace s, x.agree s);
    })

-- In every state that steps reach no namespace has two guards, and the active namespaces are those of
-- the guards: a thread waits for a namespace only while another has its guard.
pub Reached-IsExclusive : (locks : NamespaceLocks) → Reached locks → IsExclusive locks
Reached-IsExclusive _ unlocked = record {
  distinct = unfold no_guards in tt;
  agree = λ s. unfold no_guards in refl;
}
Reached-IsExclusive _ (entered locks locks' namespace h e) =
    enter-IsExclusive locks locks' namespace (Reached-IsExclusive locks h) e
Reached-IsExclusive _ (dropped locks namespace h held) = dropped_one (Reached-IsExclusive locks h)
  where
    dropped_one : IsExclusive locks → IsExclusive (drop_guard locks namespace)
    dropped_one x =
        unfold drop_guard in
        record {
          distinct = take_guard-IsDistinct locks.guards namespace x.distinct;
          agree = λ s. ground (
            arith,
            contains-without locks.active namespace s,
            take_guard-contains locks.guards namespace s x.distinct,
            x.agree s,
          );
        }
