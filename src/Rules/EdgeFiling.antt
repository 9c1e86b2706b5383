-- ===== src/Rules/EdgeFiling.antt =====
-- The map of buildTopology: each edge is filed once, under its text.
use async_trace_doctor.Common.{
  ℕ, suc, ◌≡◌, refl, sym, ap, ◌∙◌, subst, String, false, some, [], ◌∷◌, All, ◌==◌, Bool-cases, inl,
  inr, arith, eq_iff, if◌then◌else◌,
}
use async_trace_doctor.Common.Dict
use async_trace_doctor.Common.Dict.{Dict}
use async_trace_doctor.Common.Texts.{join}
use async_trace_doctor.Rules.Topology.{Edge}

-- The ten texts that tell an edge, apart from its count, with zero bytes between them.
unfoldable pub edge_text : Edge → String
unfolding join
edge_text e = join "\0" (
    e.producer ∷ e.system ∷ e.destination ∷ e.consumer ∷ e.consumer_group ∷ e.subscription
    ∷ e.environment ∷ e.service_namespace ∷ e.destination_namespace ∷ e.broker_address ∷ [])

-- A map without the key, and one with each key once.
abbrev Fresh : String → Dict Edge → Type 0
Fresh k m = All (λ entry. (entry.0 == k) ≡ false) m

abbrev pub Once : Dict Edge → Type 0
Once [] = Unit
Once ((k, e) ∷ m) = Fresh k m × Once m

Fresh-put :
    (j k : String) (v : Edge) (m : Dict Edge)
    → (k == j) ≡ false
    → Fresh j m
    → Fresh j (Dict.put k v m)
unfolding Dict.put
Fresh-put j k v [] n h = (n, tt)
Fresh-put j k v ((i, w) ∷ m) n h = elim (Bool-cases (i == k)) [
  | inl same ↦ rw (same, Dict.put) (n, h.1)
  | inr other ↦ rw (other, Dict.put) (h.0, Fresh-put j k v m n h.1)
]

swapped : (i k : String) → (i == k) ≡ false → (k == i) ≡ false
swapped i k h = ground (arith, eq_iff i k, eq_iff k i)

pub Once-put : (k : String) (v : Edge) (m : Dict Edge) → Once m → Once (Dict.put k v m)
unfolding Dict.put
Once-put k v [] h = (tt, tt)
Once-put k v ((i, w) ∷ m) h = elim (Bool-cases (i == k)) [
  | inl same ↦
      let p : i ≡ k = (eq_iff i k).0 same in rw (same, Dict.put) (subst (λ j. Fresh j m) p h.0, h.1)
  | inr other ↦ rw (other, Dict.put) (Fresh-put i k v m (swapped i k other) h.0, Once-put k v m h.1)
]

-- Every entry is filed under the text of its edge, which counts what `c` says of the text.
abbrev pub Good : (String → ℕ) → Dict Edge → Type 0
Good c m = All (λ entry. (edge_text entry.1 ≡ entry.0) × (entry.1.count ≡ c entry.0)) m

-- One more of a text.
abbrev pub bump : String → (String → ℕ) → String → ℕ
bump k c j = if k == j then suc (c j) else c j

Good-grow : (k : String) (c : String → ℕ) (m : Dict Edge) → Fresh k m → Good c m → Good (bump k c) m
Good-grow k c [] f h = tt
Good-grow k c ((i, w) ∷ m) f h = ((h.0.0, rw (swapped i k f.0) h.0.1), Good-grow k c m f.1 h.1)

pub Good-put :
    (k : String) (c : String → ℕ) (v : Edge) (m : Dict Edge)
    → edge_text v ≡ k
    → v.count ≡ suc (c k)
    → Once m
    → Good c m
    → Good (bump k c) (Dict.put k v m)
unfolding Dict.put
Good-put k c v [] t n o h = ((t, rw ((eq_iff k k).1 refl) n), tt)
Good-put k c v ((i, w) ∷ m) t n o h = elim (Bool-cases (i == k)) [
  | inl same ↦
      let p : i ≡ k = (eq_iff i k).0 same in
      rw (same, Dict.put)
        ((t, rw ((eq_iff k k).1 refl) n), Good-grow k c m (subst (λ j. Fresh j m) p o.0) h.1)
  | inr other ↦
      rw (other, Dict.put) ((h.0.0, rw (swapped i k other) h.0.1), Good-put k c v m t n o.1 h.1)
]

pub Good-get :
    (k : String) (c : String → ℕ) (m : Dict Edge) {e : Edge}
    → Good c m
    → Dict.get k m ≡ some e
    → (edge_text e ≡ k) × (e.count ≡ c k)
unfolding Dict.get
Good-get k c [] h g = absurd (cc g)
Good-get k c ((i, w) ∷ m) {e} h g = elim (Bool-cases (i == k)) [
  | inl same ↦
      let p : i ≡ k = (eq_iff i k).0 same in
      let q : some w ≡ some e = rw (same, Dict.get) at g in
      let r : w ≡ e = cc q in
      (ap edge_text (sym r) ∙ h.0.0 ∙ p, ap (λ (d : Edge). d.count) (sym r) ∙ h.0.1 ∙ ap c p)
  | inr other ↦ Good-get k c m h.1 (rw (other, Dict.get) at g)
]
