-- ===== src/Sessions/Bounded.antt =====
-- src/aiops_k8s_agents/experiment_session.py: what the bounded store keeps.
use aiops_research.Base.{
  ℕ, suc, ◌≤◌, ◌<◌, false, none, some, List, [], ◌∷◌, ◌++◌, Text, text_eq_iff, text_eq_refl, length,
  length-append, ltb, ◌≡◌, ◌≢◌, refl, sym, ap, ◌∙◌, inl, inr, arith, Bool-cases, if◌then◌else◌,
}
use aiops_research.Sessions.{ExperimentSession, has_id, pop, evict, put, get}

abbrev pub Distinct : List ExperimentSession → Type 0
Distinct [] = Unit
Distinct (s ∷ ss) = (get s.experiment_id ss ≡ none) × Distinct ss

-- At most `max` sessions, with different ids.
pub record IsBounded (max : ℕ) (ss : List ExperimentSession) : Type 0 where
  pub bounded : length ss ≤ max
  pub distinct : Distinct ss

length-evict : (max : ℕ) (ss : List ExperimentSession) → length (evict max ss) ≤ max
unfolding evict
length-evict max [] = omega arith
length-evict max (s ∷ ss) = ground (arith, length-evict max ss)

evict_fits : (max : ℕ) (ss : List ExperimentSession) → length ss ≤ max → evict max ss ≡ ss
unfolding evict
evict_fits max [] h = refl
evict_fits max (s ∷ ss) h = ground arith

evict_full :
    (max : ℕ) (s : ExperimentSession) (ss : List ExperimentSession)
    → length ss ≡ max
    → evict max (s ∷ ss) ≡ ss
unfolding evict
evict_full max s ss h = ground (arith, evict_fits max ss)

Distinct-evict : (max : ℕ) (ss : List ExperimentSession) → Distinct ss → Distinct (evict max ss)
unfolding evict
Distinct-evict max [] d = d
Distinct-evict max (s ∷ ss) d = elim (Bool-cases (ltb max (suc (length ss)))) [
  | inl t ↦ rw t (Distinct-evict max ss d.1)
  | inr n ↦ rw n d
]

length-pop : (i : Text) (ss : List ExperimentSession) → length (pop i ss) ≤ length ss
length-pop i [] = omega arith
length-pop i (s ∷ ss) = ground (arith, length-pop i ss)

get-pop_same : (i : Text) (ss : List ExperimentSession) → get i (pop i ss) ≡ none
unfolding get
get-pop_same i [] = refl
get-pop_same i (s ∷ ss) = ground (arith, get-pop_same i ss)

pop_absent : (i : Text) (ss : List ExperimentSession) → get i ss ≡ none → pop i ss ≡ ss
unfolding get
pop_absent i [] h = refl
pop_absent i (s ∷ ss) h = elim (Bool-cases (has_id i s)) [
  | inl t ↦ absurd (ground (arith, h, t))
  | inr o ↦ rw o (ap (λ r. s ∷ r) (pop_absent i ss (rw o at h)))
]

get-pop_other : (i j : Text) (ss : List ExperimentSession) → i ≢ j → get j (pop i ss) ≡ get j ss
unfolding get
get-pop_other i j [] n = refl
get-pop_other i j (s ∷ ss) n = elim (Bool-cases (has_id i s)) [
  | inl t ↦
      let other : has_id j s ≡ false = elim (Bool-cases (has_id j s)) [
        | inl u ↦
            absurd
              (n (sym ((text_eq_iff s.experiment_id i).0 t) ∙ (text_eq_iff s.experiment_id j).0 u))
        | inr o ↦ o
      ] in
      ground (arith, t, other, get-pop_other i j ss n)
  | inr o ↦ ground (arith, o, get-pop_other i j ss n)
]

get-append :
    (j : Text) (ss : List ExperimentSession) (s : ExperimentSession)
    → get j (ss ++ s ∷ [])
      ≡ (elim (get j ss) [ none ↦ if has_id j s then some s else none | some t ↦ some t ])
unfolding get
get-append j [] s = refl
get-append j (t ∷ ss) s = ground (arith, get-append j ss s)

get-append_other :
    (j : Text) (ss : List ExperimentSession) (s : ExperimentSession)
    → has_id j s ≡ false
    → get j (ss ++ s ∷ []) ≡ get j ss
unfolding get
get-append_other j [] s h = rw h refl
get-append_other j (t ∷ ss) s h = ground (arith, get-append_other j ss s h)

Distinct-pop : (i : Text) (ss : List ExperimentSession) → Distinct ss → Distinct (pop i ss)
Distinct-pop i [] d = d
Distinct-pop i (s ∷ ss) d = elim (Bool-cases (has_id i s)) [
  | inl t ↦ rw t (Distinct-pop i ss d.1)
  | inr o ↦
      let n : i ≢ s.experiment_id =
        λ e. ground (arith, o, (text_eq_iff s.experiment_id i).1 (sym e)) in
      rw o (get-pop_other i s.experiment_id ss n ∙ d.0, Distinct-pop i ss d.1)
]

Distinct-append :
    (ss : List ExperimentSession) (s : ExperimentSession)
    → Distinct ss
    → get s.experiment_id ss ≡ none
    → Distinct (ss ++ s ∷ [])
unfolding get
Distinct-append [] s d h = (refl, tt)
Distinct-append (t ∷ ss) s d h = elim (Bool-cases (has_id s.experiment_id t)) [
  | inl same ↦ absurd (ground (arith, h, same))
  | inr o ↦
      let other : has_id t.experiment_id s ≡ false = elim (Bool-cases (has_id t.experiment_id s)) [
        | inl u ↦ absurd (
            ground (
              arith,
              o,
              (text_eq_iff t.experiment_id s.experiment_id).1
                  (sym ((text_eq_iff s.experiment_id t.experiment_id).0 u)),
            ))
        | inr p ↦ p
      ] in
      (
        ground (arith, get-append t.experiment_id ss s, d.0, other),
        Distinct-append ss s d.1 (ground (arith, h, o)),
      )
]

-- The store stays within its bound, with different ids, whatever is put into it.
put-IsBounded :
    (max : ℕ) (s : ExperimentSession) (ss : List ExperimentSession)
    → IsBounded max ss
    → IsBounded max (put max s ss)
unfolding put
put-IsBounded max s ss v = record {
  bounded = length-evict max (pop s.experiment_id ss ++ s ∷ []);
  distinct = Distinct-evict max (pop s.experiment_id ss ++ s ∷ []) (
      Distinct-append (pop s.experiment_id ss) s (Distinct-pop s.experiment_id ss v.distinct)
        (get-pop_same s.experiment_id ss));
}

evict-append :
    (max : ℕ) (ss : List ExperimentSession) (s : ExperimentSession)
    → get s.experiment_id ss ≡ none
    → get s.experiment_id (evict (suc max) (ss ++ s ∷ [])) ≡ some s
unfolding evict get
evict-append max [] s h = ground (arith, text_eq_refl s.experiment_id)
evict-append max (t ∷ ss) s h =
    ground
      (arith, text_eq_refl s.experiment_id, get-append s.experiment_id ss s, evict-append max ss s)

-- What is put into a store within its bound is found there, and the store stays within its bound,
-- with different ids.
pub get-put :
    (max : ℕ) (s : ExperimentSession) (ss : List ExperimentSession)
    → IsBounded (suc max) ss
    → (get s.experiment_id (put (suc max) s ss) ≡ some s) × IsBounded (suc max) (put (suc max) s ss)
unfolding put
get-put max s ss v = (
  evict-append max (pop s.experiment_id ss) s (get-pop_same s.experiment_id ss),
  put-IsBounded (suc max) s ss v,
)

unfits : (j : Text) (s : ExperimentSession) → s.experiment_id ≢ j → has_id j s ≡ false
unfits j s n = elim (Bool-cases (has_id j s)) [
  | inl t ↦ absurd (n ((text_eq_iff s.experiment_id j).0 t))
  | inr o ↦ o
]

-- While there is room for the session once its old version is taken out, putting it in leaves what is
-- found under every other id as it was.
pub get-put_other :
    (max : ℕ) (s : ExperimentSession) (ss : List ExperimentSession) (j : Text)
    → length (pop s.experiment_id ss) < max
    → s.experiment_id ≢ j
    → get j (put max s ss) ≡ get j ss
unfolding put
get-put_other max s ss j room n =
    let old = pop s.experiment_id ss in
    let kept = evict_fits max (old ++ s ∷ []) (omega (arith, length-append old (s ∷ []), room)) in
    ap (get j) kept ∙ get-append_other j old s (unfits j s n) ∙ get-pop_other s.experiment_id j ss n

-- A new session that is put into a full store takes the place of the oldest one.
pub put_full :
    (s t : ExperimentSession) (ss : List ExperimentSession)
    → get s.experiment_id (t ∷ ss) ≡ none
    → put (length (t ∷ ss)) s (t ∷ ss) ≡ ss ++ s ∷ []
unfolding put
put_full s t ss new =
    let same = pop_absent s.experiment_id (t ∷ ss) new in
    ap (λ old. evict (suc (length ss)) (old ++ s ∷ [])) same
    ∙ evict_full (suc (length ss)) t (ss ++ s ∷ []) (omega (arith, length-append ss (s ∷ [])))
