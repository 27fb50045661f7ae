-- ===== src/Chain/Dict/Every.antt =====
-- Predicates on all entries of a storage map, as lookups see them.
use flexible_pay_crowdfund_a.Base.{
  ℕ, ◌≡◌, subst, sym, false, Option, none, some, ◌==◌, eqb→eq, Bool-cases, inl, inr,
}
use flexible_pay_crowdfund_a.Chain.Dict.{Dict, may_load, save, may_load-save}

abbrev pub WhenSome {ℓ κ} : {V : Type ℓ} → (V → Type κ) → Option V → Type κ
WhenSome P none = Unit
WhenSome P (some v) = P v

pub WhenSome-some {ℓ κ} :
    {V : Type ℓ} (P : V → Type κ) (o : Option V) {v : V} → WhenSome P o → o ≡ some v → P v
WhenSome-some P none h e = cc
WhenSome-some P (some w) {v} h e = subst P (cc) h

pub WhenSome-mono {ℓ κ μ} :
    {V : Type ℓ} (P : V → Type κ) (Q : V → Type μ)
    → ((v : V) → P v → Q v)
    → (o : Option V) → WhenSome P o
    → WhenSome Q o
WhenSome-mono P Q f none h = tt
WhenSome-mono P Q f (some v) h = f v h

abbrev pub Every {ℓ κ} : {V : Type ℓ} → (ℕ → V → Type κ) → Dict V → Type κ
Every P d = (j : ℕ) → WhenSome (P j) (may_load j d)

-- A new entry has to meet the predicate; the others have to keep it.
pub save-Every {ℓ κ μ} :
    {V : Type ℓ} (P : ℕ → V → Type κ) (Q : ℕ → V → Type μ) (k : ℕ) (v : V) (d : Dict V)
    → Q k v
    → ((j : ℕ) → (j == k) ≡ false → (w : V) → P j w → Q j w)
    → Every P d
    → Every Q (save k v d)
save-Every P Q k v d new others all j = elim (Bool-cases (j == k)) [
  | inl same ↦
      subst (WhenSome (Q j)) (sym (may_load-save j k v d))
        (rw same (subst (λ i. Q i v) (sym (eqb→eq j k same)) new))
  | inr differ ↦
      subst (WhenSome (Q j)) (sym (may_load-save j k v d))
        (rw differ (WhenSome-mono (P j) (Q j) (others j differ) (may_load j d) (all j)))
]
