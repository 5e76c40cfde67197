-- ===== src/Lock/Exclusion.antt =====
-- src/aiops_k8s_agents/operation_lock.py: when the lock excludes, and how two processes that clear a
-- stale lock both get it.
use aiops_research.Base.{
  ℕ, true, false, ◌==◌, ==_refl, Bool-cases, Option, none, some, List, [], ◌∷◌, ◌≡◌, ◌≢◌, refl, sym,
  subst, inl, inr, arith, All, ==_iff,
}
use aiops_research.Lock.{
  Content, blank, written, Phase, trying, examining, rechecking, clearing, opened, held, leaving,
  released, refused, Facts, LockEvent, System, is_stale, act, step, run, start,
}

-- What the file holds for a process that stands at a phase.
abbrev Owns : ℕ → Option Content → Phase → Type 0
Owns j file (trying again) = Unit
Owns j file examining = Unit
Owns j file (rechecking t) = ⊥
Owns j file clearing = ⊥
Owns j file opened = file ≡ some (blank j)
Owns j file held = file ≡ some (written j)
Owns j file leaving = file ≡ some (written j)
Owns j file released = Unit
Owns j file refused = Unit

-- Whatever the file holds, it does not look stale.
abbrev pub IsFresh : LockEvent → Type 0
IsFresh e = (c : Content) → is_stale e.facts c ≡ false

act_self :
    (i : ℕ) (f : Facts) (p : Phase) (file : Option Content)
    → ((c : Content) → is_stale f c ≡ false)
    → Owns i file p
    → Owns i (act i f p file).0 (act i f p file).1
unfolding act
act_self i f (trying again) none fresh o = refl
act_self i f (trying false) (some c) fresh o = tt
act_self i f (trying true) (some c) fresh o = tt
act_self i f examining none fresh o = tt
act_self i f examining (some c) fresh o = rw (fresh c) tt
act_self i f (rechecking t) file fresh o = absurd o
act_self i f clearing file fresh o = absurd o
act_self i f opened file fresh o = rw o (ground arith)
act_self i f held file fresh o = rw (o, ==_refl i) refl
act_self i f leaving file fresh o = tt
act_self i f released file fresh o = tt
act_self i f refused file fresh o = tt

-- A process whose own content is not in the file stands at a phase that needs none.
needs_nothing :
    (j : ℕ) (q : Phase) (file other : Option Content)
    → Owns j file q
    → file ≢ some (blank j)
    → file ≢ some (written j)
    → Owns j other q
needs_nothing j (trying again) file other w b c = tt
needs_nothing j examining file other w b c = tt
needs_nothing j (rechecking t) file other w b c = w
needs_nothing j clearing file other w b c = w
needs_nothing j opened file other w b c = absurd (b w)
needs_nothing j held file other w b c = absurd (c w)
needs_nothing j leaving file other w b c = absurd (c w)
needs_nothing j released file other w b c = tt
needs_nothing j refused file other w b c = tt

act_other :
    (i j : ℕ) (f : Facts) (p q : Phase) (file : Option Content)
    → i ≢ j
    → Owns i file p
    → Owns j file q
    → Owns j (act i f p file).0 q
unfolding act
act_other i j f (trying again) q none n o w = needs_nothing j q none _ w (λ e. cc) (λ e. cc)
act_other i j f (trying false) q (some c) n o w = w
act_other i j f (trying true) q (some c) n o w = w
act_other i j f examining q none n o w = w
act_other i j f examining q (some c) n o w = w
act_other i j f (rechecking t) q file n o w = absurd o
act_other i j f clearing q file n o w = absurd o
act_other i j f opened q file n o w =
    needs_nothing j q file _ w (λ e. n (ground arith)) (λ e. ground arith)
act_other i j f held q file n o w = w
act_other i j f leaving q file n o w =
    needs_nothing j q file _ w (λ e. ground arith) (λ e. n (ground arith))
act_other i j f released q file n o w = w
act_other i j f refused q file n o w = w

-- Every process owns what its phase needs.
abbrev IsOwned : System → Type 0
IsOwned s = (j : ℕ) → Owns j s.file (s.phases j)

step-IsOwned : (e : LockEvent) (s : System) → IsFresh e → IsOwned s → IsOwned (step e s)
unfolding step
step-IsOwned e s fresh o j = elim (Bool-cases (j == e.process)) [
  | inl same ↦
      let is : j ≡ e.process = (==_iff j e.process).0 same in
      rw same (
        subst
          (λ k.
            Owns k (act e.process e.facts (s.phases e.process) s.file).0
              (act e.process e.facts (s.phases e.process) s.file).1)
          (sym is) (act_self e.process e.facts (s.phases e.process) s.file fresh (o e.process)))
  | inr other ↦
      let apart : e.process ≢ j = λ h. ground (arith, other, h) in
      rw other (
        act_other e.process j e.facts (s.phases e.process) (s.phases j) s.file apart (o e.process)
          (o j))
]

run-IsOwned : (es : List LockEvent) (s : System) → All IsFresh es → IsOwned s → IsOwned (run es s)
unfolding run
run-IsOwned [] s fresh o = o
run-IsOwned (e ∷ es) s fresh o = run-IsOwned es (step e s) fresh.1 (step-IsOwned e s fresh.0 o)

Owns-held :
    (j : ℕ) (file : Option Content) (p : Phase) → Owns j file p → p ≡ held → file ≡ some (written j)
Owns-held j file p o h = ground (arith, subst (Owns j file) h o)

-- As long as no process takes the lock file for stale, the lock excludes: whatever the processes do
-- and in whatever order, starting with or without a lock file, no two processes are inside it.
pub run_excludes :
    (es : List LockEvent) (file : Option Content) (i j : ℕ)
    → All IsFresh es
    → i ≢ j
    → (run es (start file)).phases i ≡ held
    → ¬ ((run es (start file)).phases j ≡ held)
run_excludes es file i j fresh n h k =
    let o = run-IsOwned es (start file) fresh (λ j. tt) in
    let s = run es (start file) in
    let a = Owns-held i s.file (s.phases i) (o i) h in
    let b = Owns-held j s.file (s.phases j) (o j) k in n (ground (arith, a, b))
