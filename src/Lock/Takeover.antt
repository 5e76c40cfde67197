-- ===== src/Lock/Takeover.antt =====
-- src/aiops_k8s_agents/operation_lock.py: `_clear_stale_lock` reads, reads again and unlinks in separate
-- calls; what two processes that clear the same lock can do.
use aiops_research.Base.{
  ℕ, true, false, ◌==◌, ==_refl, Option, some, List, [], ◌∷◌, ◌≡◌, ◌≢◌, refl, arith,
}
use aiops_research.Lock.{
  Content, blank, written, Phase, trying, examining, rechecking, clearing, opened, held, Facts,
  LockEvent, System, is_stale, act, step, run, start,
}

abbrev pub event : ℕ → Facts → LockEvent
event i f = record { process = i; facts = f }

-- Both processes read the stale file twice; one clears it and enters, and then the other clears the
-- new file and enters.
abbrev pub takeover : ℕ → ℕ → Facts → List LockEvent
takeover i j f =
    event i f
    ∷ event i f
    ∷ event j f
    ∷ event j f
    ∷ event i f
    ∷ event j f
    ∷ event i f
    ∷ event i f
    ∷ event i f
    ∷ event j f
    ∷ event j f
    ∷ event j f
    ∷ []

-- What two processes see of a system.
record Sees (i j : ℕ) (s : System) (c : Option Content) (p q : Phase) : Type 0 where
  pub file : s.file ≡ c
  pub left : s.phases i ≡ p
  pub right : s.phases j ≡ q

module _ (i j : ℕ) (f : Facts) (n : i ≢ j) where
  step_left :
      {s : System} {c d : Option Content} {p q t : Phase}
      → Sees i j s c p q
      → act i f p c ≡ (d, t)
      → Sees i j (step (event i f) s) d t q
  unfolding step
  step_left v e =
      let ji : (j == i) ≡ false = ground arith in
      record {
        file = rw (v.left, v.file, e) refl;
        left = rw (==_refl i, v.left, v.file, e) refl;
        right = rw ji v.right;
      }

  step_right :
      {s : System} {c d : Option Content} {p q t : Phase}
      → Sees i j s c p q
      → act j f q c ≡ (d, t)
      → Sees i j (step (event j f) s) d p t
  unfolding step
  step_right v e =
      let ij : (i == j) ≡ false = ground arith in
      record {
        file = rw (v.right, v.file, e) refl;
        left = rw ij v.left;
        right = rw (==_refl j, v.right, v.file, e) refl;
      }

  takeover-Sees :
      (k : ℕ)
      → is_stale f (written k) ≡ true
      → Sees i j (run (takeover i j f) (start (some (written k)))) (some (written j)) held held
  unfolding run act
  takeover-Sees k stale =
      let v : Sees i j (start (some (written k))) (some (written k)) (trying false) (trying false) =
        record { file = refl; left = refl; right = refl } in
      let reads : (x : ℕ)
          → act x f examining (some (written k)) ≡ (some (written k), rechecking (some k)) =
        λ x. rw stale refl in
      let checks : (x : ℕ)
          → act x f (rechecking (some k)) (some (written k)) ≡ (some (written k), clearing) =
        λ x. rw (==_refl k) refl in
      let writes : (x : ℕ) → act x f opened (some (blank x)) ≡ (some (written x), held) =
        λ x. rw (==_refl x) refl in
      let both_read =
        step_right (step_right (step_left (step_left v refl) (reads i)) refl) (reads j) in
      let both_sure = step_right (step_left both_read (checks i)) (checks j) in
      let first_in = step_left (step_left (step_left both_sure refl) refl) (writes i) in
      step_right (step_right (step_right first_in refl) refl) (writes j)

-- A stale lock file lets two processes in: for any two processes and any old owner whose file looks
-- stale to both, there is an order of their steps after which both are inside the lock.
pub run_takeover :
    (i j k : ℕ) (f : Facts)
    → i ≢ j
    → is_stale f (written k) ≡ true
    → (es : List LockEvent) × ((run es (start (some (written k)))).phases i ≡ held)
      × ((run es (start (some (written k)))).phases j ≡ held)
run_takeover i j k f n stale =
    let v = takeover-Sees i j f n k stale in (takeover i j f, v.left, v.right)
