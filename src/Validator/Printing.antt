-- ===== src/Validator/Printing.antt =====
-- src/aiops_k8s_agents/validator.py: the printed commands split into the words of their templates.
use aiops_research.Base.{
  ℕ, ◌≡◌, refl, ◌≢◌, true, [], ◌∷◌, ◌++◌, arith, Text, codes, ok, all, all-append,
}
use aiops_research.Python.Decimal.{show_nat, show_nat_ascii, is_ascii_digit}
use aiops_research.Python.Shlex.{split, IsWord, IsPlain, is_plain_char, join, split-join}
use aiops_research.Validator.{is_name_char}
use aiops_research.Validator.Command.{replicas_option}
use aiops_research.Validator.Names.{IsLabel, first_alnum}
use aiops_research.Validator.Templates.{observe_argv, restart_argv, scale_argv}

pub all-IsPlain_of_name : (t : Text) → all is_name_char t ≡ true → IsPlain t
all-IsPlain_of_name [] h = refl
all-IsPlain_of_name (c ∷ t) h = ground (arith, all-IsPlain_of_name t)

pub all-IsPlain_of_digits : (t : Text) → all is_ascii_digit t ≡ true → IsPlain t
all-IsPlain_of_digits [] h = refl
all-IsPlain_of_digits (c ∷ t) h = ground (arith, all-IsPlain_of_digits t)

nonempty_of_begins : (t : Text) → first_alnum t ≡ true → t ≢ []
nonempty_of_begins [] h = λ e. cc
nonempty_of_begins (c ∷ t) h = λ e. cc

pub IsLabel-IsWord : (t : Text) → IsLabel t → IsWord t
IsLabel-IsWord t l = (nonempty_of_begins t l.begins, all-IsPlain_of_name t l.chars)

-- A literal is a word by evaluation.
pub count-IsWord : (n : ℕ) → IsWord (replicas_option ++ show_nat n)
count-IsWord n = (
  (λ e. cc),
  rw (all-append is_plain_char replicas_option (show_nat n))
      (all-IsPlain_of_digits (show_nat n) (show_nat_ascii n)),
)

abbrev kubectl : Text
kubectl = codes "kubectl"

kubectl-IsWord : IsWord kubectl
kubectl-IsWord = ((λ e. cc), refl)

module _ (ns dep : Text) (ns_word : IsWord ns) (dep_word : IsWord dep) where
  pub split_observe :
      split (codes "kubectl get deployment " ++ (dep ++ (codes " -n " ++ (ns ++ codes " -o json"))))
      ≡ ok (observe_argv ns dep)
  unfolding join
  split_observe =
      split-join kubectl
        (codes "get" ∷ codes "deployment" ∷ dep ∷ codes "-n" ∷ ns ∷ codes "-o" ∷ codes "json" ∷ [])
        kubectl-IsWord (ground arith)

  pub split-restart :
      split (codes "kubectl rollout restart deployment " ++ (dep ++ (codes " -n " ++ ns)))
      ≡ ok (restart_argv ns dep)
  unfolding join
  split-restart =
      split-join kubectl
        (codes "rollout" ∷ codes "restart" ∷ codes "deployment" ∷ dep ∷ codes "-n" ∷ ns ∷ [])
        kubectl-IsWord (ground arith)

  pub split_scale :
      (count : Text)
      → IsWord (replicas_option ++ count)
      → split (
          codes "kubectl scale deployment "
          ++ (dep ++ (codes " --replicas=" ++ (count ++ (codes " -n " ++ ns)))))
        ≡ ok (scale_argv count ns dep)
  unfolding join
  split_scale count word =
      split-join kubectl
        (codes "scale"
          ∷ codes "deployment"
          ∷ dep
          ∷ (replicas_option ++ count)
          ∷ codes "-n"
          ∷ ns
          ∷ [])
        kubectl-IsWord (ground arith)
