-- ===== src/K8sVersion/Types.antt =====
-- registry.go: what the type registry comes to for versions of the form that `NormalizeK8sVersion`
-- gives.
use Prim.Native.Nat.{◌^◌}
use formae_plugin_kubernetes.Prelude.{
  ℕ, ◌<◌, String, ◌≡◌, ◌∙◌, refl, inl, inr, Bool, false, ◌&&◌, ◌||◌, not, none, some, Bool-cases,
  ltb, ◌==◌, str_eq, arith, if◌then◌else◌, lookup,
}
use formae_plugin_kubernetes.Prelude.Decimal.{print_nat}
use formae_plugin_kubernetes.Config.Version.{compare_k8s_versions}
use formae_plugin_kubernetes.Config.Version.Order.{version, lexicographic, compare-version}
use formae_plugin_kubernetes.K8sVersion.Gates.{
  Gate, introduced, lookup_type, type_supported, gate_refusal, requires,
}

-- The minor version in which a gated type came, all of them in Kubernetes 1.
abbrev pub first_minor : String → ℕ
first_minor resource_type =
    if str_eq "K8S::Admissionregistration::MutatingAdmissionPolicy" resource_type
    then 36
    else if str_eq "K8S::Flowcontrol::FlowSchema" resource_type
    then 29
    else if str_eq "K8S::Flowcontrol::PriorityLevelConfiguration" resource_type
    then 29
    else if str_eq "K8S::Autoscaling::HorizontalPodAutoscaler" resource_type
    then 23
    else 0

compare_literal :
    (a b m : ℕ)
    → a < 2 ^ 63
    → b < 2 ^ 63
    → m < 2 ^ 63
    → compare_k8s_versions (version a b) (version 1 m) ≡ lexicographic a b 1 m
compare_literal a b m p q r = compare-version a b 1 m p q (omega arith) r

-- A gate that only has a first version refuses exactly the versions before it.
introduced_refusal :
    (a b m : ℕ) (g : Gate)
    → a < 2 ^ 63
    → b < 2 ^ 63
    → m < 2 ^ 63
    → g.introduced_in ≡ version 1 m
    → str_eq (version 1 m) "" ≡ false
    → g.removed_in ≡ ""
    → gate_refusal g (version a b)
      ≡ (if ltb a 1 || (a == 1 && ltb b m) then some (requires (version 1 m)) else none)
unfolding gate_refusal
introduced_refusal a b m g p q r e n f = rw (e, f, n) (ground (arith, compare_literal a b m p q r))

type_refusal :
    (t : String) (a b : ℕ) (g : Gate)
    → lookup_type t ≡ some g
    → type_supported t (version a b) ≡ gate_refusal g (version a b)
unfolding type_supported
type_refusal t a b g e = rw (type_supported, e) refl

type_ungated : (t : String) (a b : ℕ) → lookup_type t ≡ none → type_supported t (version a b) ≡ none
unfolding type_supported
type_ungated t a b e = rw (type_supported, e) refl

-- Whether a version of Kubernetes comes before 1.m.
abbrev pub before_minor : ℕ → ℕ → ℕ → Bool
before_minor a b m = ltb a 1 || (a == 1 && ltb b m)

gated_type :
    (t : String) (a b m : ℕ) (g : Gate)
    → a < 2 ^ 63
    → b < 2 ^ 63
    → m < 2 ^ 63
    → lookup_type t ≡ some g
    → g.introduced_in ≡ version 1 m
    → str_eq (version 1 m) "" ≡ false
    → g.removed_in ≡ ""
    → type_supported t (version a b)
      ≡ (if before_minor a b m then some (requires (version 1 m)) else none)
gated_type t a b m g p q r l e n f = type_refusal t a b g l ∙ introduced_refusal a b m g p q r e n f

-- For a version with major and minor number within int64: a type is refused exactly when it is one
-- of the four gated types and the version comes before the one it needs, which the refusal names.
pub type_supported-version :
    (t : String) (a b : ℕ)
    → a < 2 ^ 63
    → b < 2 ^ 63
    → type_supported t (version a b) ≡ (
        if not (first_minor t == 0) && before_minor a b (first_minor t)
        then some (requires (version 1 (first_minor t)))
        else none)
unfolding lookup_type lookup print_nat
type_supported-version t a b p q =
    elim (Bool-cases (str_eq "K8S::Admissionregistration::MutatingAdmissionPolicy" t)) [
      | inl e0 ↦ rw (e0) (
          gated_type t a b 36 (introduced "1.36" "https://kep.k8s.io/3962") p q (omega arith)
            (rw (lookup_type, e0) refl) refl refl refl)
      | inr e0 ↦ elim (Bool-cases (str_eq "K8S::Flowcontrol::FlowSchema" t)) [
        | inl e1 ↦
            rw (e0, e1)
              (gated_type t a b 29
                (introduced "1.29"
                  "https://kubernetes.io/blog/2024/04/30/kubernetes-1-30-release-note-flow-control-graduations/")
                p q (omega arith) (rw (lookup_type, e0, e1) refl) refl refl refl)
        | inr e1 ↦ elim (Bool-cases (str_eq "K8S::Flowcontrol::PriorityLevelConfiguration" t)) [
          | inl e2 ↦
              rw (e0, e1, e2)
                (gated_type t a b 29
                  (introduced "1.29"
                    "https://kubernetes.io/blog/2024/04/30/kubernetes-1-30-release-note-flow-control-graduations/")
                  p q (omega arith) (rw (lookup_type, e0, e1, e2) refl) refl refl refl)
          | inr e2 ↦ elim (Bool-cases (str_eq "K8S::Autoscaling::HorizontalPodAutoscaler" t)) [
            | inl e3 ↦
                rw (e0, e1, e2, e3)
                  (gated_type t a b 23
                    (introduced "1.23" "https://github.com/kubernetes/enhancements/issues/117") p q
                    (omega arith) (rw (lookup_type, e0, e1, e2, e3) refl) refl refl refl)
            | inr e3 ↦
                rw
                  (
                    type_ungated t a b (rw (lookup_type, lookup, e0, e1, e2, e3) refl),
                    e0,
                    e1,
                    e2,
                    e3,
                  )
                  refl
          ]
        ]
      ]
    ]
