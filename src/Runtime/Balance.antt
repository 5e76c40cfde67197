-- ===== src/Runtime/Balance.antt =====
-- src/aiops_k8s_agents/experiment_runtime.py: what an action of the `try` block of
-- `ExperimentRuntime.run` leaves to be undone, and the rules for its parts.
use aiops_research.Base.{
  ℕ, suc, ◌+◌, Bool, true, false, ◌&&◌, Option, none, some, [], ◌∷◌, Result, ok, err, Result-cases,
  ◌≡◌, inl, inr,
}
use aiops_research.Runtime.{Exn, ChaosAnswer}
use aiops_research.Runtime.Run.{
  Call, admitting, checking, entering, leaving, preflighting, emitting, injecting, coordinating,
  cleaning, History, Answer, Environment, Locals, Action, ◌>>=◌, ◌>>◌, call, lift, when, settle,
}

abbrev pub has : {A : Type 0} → Option A → ℕ
has none = 0
has (some a) = 1

abbrev pub flag : Bool → ℕ
flag true = 1
flag false = 0

abbrev pub returned : {A : Type 0} → Result Exn A → ℕ
returned (ok a) = 1
returned (err e) = 0

abbrev pub cleanings : History → ℕ
cleanings [] = 0
cleanings (cleaning ∷ h) = suc (cleanings h)
cleanings (_ ∷ h) = cleanings h

abbrev pub exits : History → ℕ
exits [] = 0
exits (leaving ∷ h) = suc (exits h)
exits (_ ∷ h) = exits h

abbrev pub Fact : Type 1
Fact = Bool → Option ChaosAnswer → Type 0

abbrev pub NoLock : Fact
NoLock k a = (k ≡ false) × (a ≡ none)

abbrev pub NoFault : Fact
NoFault k a = a ≡ none

abbrev pub Anything : Fact
Anything k a = Unit

module _ (env : Environment) where
  -- How many calls of `inject` returned.
  abbrev pub injections : History → ℕ
  injections [] = 0
  injections (injecting i ∷ h) = returned (env.inject i h) + injections h
  injections (_ ∷ h) = injections h

  -- How many times the lock was taken.
  abbrev pub entries : History → ℕ
  entries [] = 0
  entries (entering ∷ h) = returned (env.enter h) + entries h
  entries (_ ∷ h) = entries h

  -- What the `try` block keeps: the local variables say what is to be undone.
  pub record IsBalanced (real : Bool) (l : Locals) : Type 0 where
    pub injected : injections l.history ≡ has l.application
    pub entered : entries l.history ≡ flag (l.lock_acquired && real)
    pub uncleaned : cleanings l.history ≡ 0
    pub unleft : exits l.history ≡ 0

  abbrev pub Inv : Bool → Fact → Locals → Type 0
  Inv real F l = IsBalanced real l × F l.lock_acquired l.application

  -- From a balanced state with `F` an action comes to a balanced state, with `G` if it returns.
  abbrev pub Runs : {A : Type 0} → Bool → Fact → Action A → Fact → Type 0
  Runs real F m G =
      (l : Locals)
      → Inv real F l
      → IsBalanced real (m l).1
        × ((a : _) → (m l).0 ≡ ok a → G (m l).1.lock_acquired (m l).1.application)

  pub Runs-bind :
      {A B : Type 0} (real : Bool) (F G H : Fact) (m : Action A) (f : A → Action B)
      → Runs real F m G
      → ((a : A) → Runs real G (f a) H)
      → Runs real F (m >>= f) H
  unfolding ◌>>=◌
  Runs-bind real F G H m f p q l v = elim (Result-cases (m l).0) [
    | inl (a, e) ↦ rw e (q a (m l).1 ((p l v).0, (p l v).1 a e))
    | inr (x, e) ↦ rw e ((p l v).0, (λ a h. cc))
  ]

  pub Runs-then :
      {A B : Type 0} (real : Bool) (F G H : Fact) (m : Action A) (n : Action B)
      → Runs real F m G
      → Runs real G n H
      → Runs real F (m >> n) H
  unfolding ◌>>◌
  Runs-then real F G H m n p q l v = elim (Result-cases (m l).0) [
    | inl (a, e) ↦ rw e (q (m l).1 ((p l v).0, (p l v).1 a e))
    | inr (x, e) ↦ rw e ((p l v).0, (λ a h. cc))
  ]

  pub Runs-lift : (real : Bool) (F : Fact) (r : Result Exn Unit) → Runs real F (lift r) F
  unfolding lift
  Runs-lift real F r l v = (v.0, (λ a h. v.1))

  pub Runs-when :
      (real : Bool) (F G : Fact) (b : Bool) (m : Action Unit)
      → Runs real F m G
      → ((k : Bool) (a : Option ChaosAnswer) → F k a → G k a)
      → Runs real F (when b m) G
  unfolding when
  Runs-when real F G true m p keep = p
  Runs-when real F G false m p keep = λ l v. (v.0, (λ a h. keep l.lock_acquired l.application v.1))

  -- The calls that nothing has to undo.
  abbrev pub IsQuiet : Call → Type 0
  IsQuiet entering = ⊥
  IsQuiet leaving = ⊥
  IsQuiet (injecting i) = ⊥
  IsQuiet cleaning = ⊥
  IsQuiet _ = Unit

  pub IsBalanced-quiet :
      (real : Bool) (c : Call) (l : Locals)
      → IsQuiet c
      → IsBalanced real l
      → IsBalanced real (record l { history = c ∷ l.history })
  IsBalanced-quiet real admitting l q v = record {
    injected = v.injected;
    entered = v.entered;
    uncleaned = v.uncleaned;
    unleft = v.unleft;
  }
  IsBalanced-quiet real checking l q v = record {
    injected = v.injected;
    entered = v.entered;
    uncleaned = v.uncleaned;
    unleft = v.unleft;
  }
  IsBalanced-quiet real preflighting l q v = record {
    injected = v.injected;
    entered = v.entered;
    uncleaned = v.uncleaned;
    unleft = v.unleft;
  }
  IsBalanced-quiet real (emitting s) l q v = record {
    injected = v.injected;
    entered = v.entered;
    uncleaned = v.uncleaned;
    unleft = v.unleft;
  }
  IsBalanced-quiet real coordinating l q v = record {
    injected = v.injected;
    entered = v.entered;
    uncleaned = v.uncleaned;
    unleft = v.unleft;
  }
  IsBalanced-quiet real entering l q v = absurd q
  IsBalanced-quiet real leaving l q v = absurd q
  IsBalanced-quiet real (injecting i) l q v = absurd q
  IsBalanced-quiet real cleaning l q v = absurd q

  pub Runs-call :
      {A : Type 0} (real : Bool) (F : Fact) (c : Call) (answer : Answer A)
      → IsQuiet c
      → Runs real F (call c answer) F
  unfolding call
  Runs-call real F c answer q l v = (IsBalanced-quiet real c l q v.0, (λ a h. v.1))

  -- A quiet call in front of an action.
  pub Runs-first :
      {A B : Type 0} (real : Bool) (F H : Fact) (c : Call) (answer : Answer A) (n : Action B)
      → IsQuiet c
      → Runs real F n H
      → Runs real F (call c answer >> n) H
  Runs-first real F H c answer n q p =
      Runs-then real F F H (call c answer) n (Runs-call real F c answer q) p

  pub settle-IsBalanced :
      (real : Bool) (o : Result Exn Unit × Locals)
      → IsBalanced real o.1
      → IsBalanced real (settle o)
  settle-IsBalanced real (ok u, l) v = v
  settle-IsBalanced real (err e, l) v = record {
    injected = v.injected;
    entered = v.entered;
    uncleaned = v.uncleaned;
    unleft = v.unleft;
  }
