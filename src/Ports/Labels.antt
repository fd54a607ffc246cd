-- ===== src/Ports/Labels.antt =====
-- The labels of resolved mappings, and which resolved mapping is whose.
use aerosol.Prelude.{
  ℕ, nat_eq, eq_iff, ◌≤◌, ◌<◌, ◌≡◌, ◌≢◌, refl, sym, ap, ◌∙◌, inl, inr, Bool, Option, List, [], ◌∷◌,
  ◌++◌, map, arith, Elem, Distinct, Distinct-append, Distinct-map-filter, elem-append, elem-filter,
  elem-map, elem-map_inv, map-append_lem, filter, same_key, Text, Bool-cases,
}
use aerosol.Db.{Db}
use aerosol.Ports.{Host, PortMapping}
use aerosol.Ports.Resolve.{is_fixed, is_auto, Assigned, IsResolved}

abbrev pub mapping_labels : List PortMapping → List Text
mapping_labels mappings = map (λ (m : PortMapping). m.label) mappings

-- What a mapping is resolved to.
pub record IsAnswer (range_start range_end : ℕ) (m r : PortMapping) : Type 0 where
  pub label : r.label ≡ m.label
  pub container_port : r.container_port ≡ m.container_port
  pub own : m.host_port ≢ 0 → r.host_port ≡ m.host_port
  pub found : m.host_port ≡ 0 → (range_start ≤ r.host_port) × (r.host_port ≤ range_end)

labels-Assigned :
    (lo hi : ℕ) (ms rs : List PortMapping)
    → Assigned lo hi ms rs
    → mapping_labels rs ≡ mapping_labels ms
labels-Assigned lo hi [] [] h = refl
labels-Assigned lo hi (m ∷ ms) (r ∷ rs) h = rw h.0.0 (rw (labels-Assigned lo hi ms rs h.1) refl)
labels-Assigned lo hi [] (r ∷ rs) h = absurd h
labels-Assigned lo hi (m ∷ ms) [] h = absurd h

Assigned-answer :
    (lo hi : ℕ) (m : PortMapping) (ms rs : List PortMapping)
    → Assigned lo hi ms rs
    → Elem m ms
    → m.host_port ≡ 0
    → (r : PortMapping) × Elem r rs × IsAnswer lo hi m r
Assigned-answer lo hi m [] rs h listed zero_port = elim listed [ ]
Assigned-answer lo hi m (x ∷ ms) [] h listed zero_port = absurd h
Assigned-answer lo hi m (x ∷ ms) (r ∷ rs) h (inl e) zero_port = (
  r,
  inl refl,
  record {
    label = h.0.0 ∙ ap (λ (y : PortMapping). y.label) e;
    container_port = h.0.1 ∙ ap (λ (y : PortMapping). y.container_port) e;
    own = λ other. absurd (other zero_port);
    found = λ z. (h.0.2, h.0.3);
  },
)
Assigned-answer lo hi m (x ∷ ms) (r ∷ rs) h (inr n) zero_port =
    let (q, listed, answer) = Assigned-answer lo hi m ms rs h.1 n zero_port in
    (q, inr listed, answer)

Assigned-positive :
    (lo hi : ℕ) (r : PortMapping) (ms rs : List PortMapping)
    → Assigned lo hi ms rs
    → Elem r rs
    → 0 < lo
    → r.host_port ≢ 0
Assigned-positive lo hi r ms [] h listed pos = elim listed [ ]
Assigned-positive lo hi r [] (q ∷ rs) h listed pos = absurd h
Assigned-positive lo hi r (m ∷ ms) (q ∷ rs) h (inl e) pos =
    ground (arith, h.0, ap (λ (y : PortMapping). y.host_port) e)
Assigned-positive lo hi r (m ∷ ms) (q ∷ rs) h (inr n) pos =
    Assigned-positive lo hi r ms rs h.1 n pos

-- A mapping is fixed or not, so the two parts of a list have different labels.
parts-apart :
    (mappings : List PortMapping) (label : Text)
    → Distinct (mapping_labels mappings)
    → Elem label (mapping_labels (filter is_fixed mappings))
    → ¬ Elem label (mapping_labels (filter is_auto mappings))
parts-apart mappings label d m n =
    let (a, listed, e) =
      elem-map_inv (λ (x : PortMapping). x.label) label (filter is_fixed mappings) m in
    let (b, there, f) =
      elem-map_inv (λ (x : PortMapping). x.label) label (filter is_auto mappings) n in
    let left = (elem-filter is_fixed a mappings).0 listed in
    let right = (elem-filter is_auto b mappings).0 there in
    let same : a ≡ b =
      same_key (λ (x : PortMapping). x.label) a b mappings d left.0 right.0 (e ∙ sym f) in
    ground (arith, left.1, right.1, same)

module _ (h : Host) (db : Db) (exclude : Option Text) (range_start range_end : ℕ)
    (mappings result : List PortMapping)
    (resolved : IsResolved h db exclude range_start range_end mappings result) where
  labels_parts :
      mapping_labels result
      ≡ mapping_labels (filter is_fixed mappings) ++ mapping_labels (filter is_auto mappings)
  labels_parts =
      ap mapping_labels resolved.parts
      ∙ map-append_lem (λ (m : PortMapping). m.label) (filter is_fixed mappings) resolved.auto
      ∙ ap (λ (l : List Text). mapping_labels (filter is_fixed mappings) ++ l)
          (labels-Assigned range_start range_end (filter is_auto mappings) resolved.auto
            resolved.assigned)

  pub labels-Distinct : Distinct (mapping_labels mappings) → Distinct (mapping_labels result)
  labels-Distinct d = rw labels_parts (
      Distinct-append (mapping_labels (filter is_fixed mappings))
        (mapping_labels (filter is_auto mappings))
        (Distinct-map-filter (λ (m : PortMapping). m.label) is_fixed mappings d)
        (Distinct-map-filter (λ (m : PortMapping). m.label) is_auto mappings d)
        (λ label m. parts-apart mappings label d m))

  pub elem-labels :
      (label : Text) → Elem label (mapping_labels result) → Elem label (mapping_labels mappings)
  elem-labels label m =
      elim ((elem-append label (mapping_labels (filter is_fixed mappings))
          (mapping_labels (filter is_auto mappings))).0
        (rw labels_parts at m)) [
          | inl fixed ↦ within is_fixed fixed
          | inr auto ↦ within is_auto auto
        ]
    where
      within :
          (p : PortMapping → Bool)
          → Elem label (mapping_labels (filter p mappings))
          → Elem label (mapping_labels mappings)
      within p n =
          let (a, listed, e) =
            elem-map_inv (λ (x : PortMapping). x.label) label (filter p mappings) n in
          rw (← e) (
            elem-map (λ (x : PortMapping). x.label) a mappings
              ((elem-filter p a mappings).0 listed).0)

  pub answer :
      (m : PortMapping)
      → Elem m mappings
      → (r : PortMapping) × Elem r result × IsAnswer range_start range_end m r
  answer m listed = elim (Bool-cases (is_auto m)) [
    | inl auto ↦
        let (r, there, good) =
          Assigned-answer range_start range_end m (filter is_auto mappings) resolved.auto
            resolved.assigned ((elem-filter is_auto m mappings).1 (listed, auto))
            ((eq_iff m.host_port 0).0 auto) in
        (
          r,
          rw resolved.parts
              ((elem-append r (filter is_fixed mappings) resolved.auto).1 (inr there)),
          good,
        )
    | inr fixed ↦
        let mine = (elem-filter is_fixed m mappings).1 (listed, ground arith) in
        (
          m,
          rw resolved.parts ((elem-append m (filter is_fixed mappings) resolved.auto).1 (inl mine)),
          record {
            label = refl;
            container_port = refl;
            own = λ other. refl;
            found = λ z. absurd (ground (arith, eq_iff m.host_port 0));
          },
        )
  ]

  pub resolved-positive : 0 < range_start → (r : PortMapping) → Elem r result → r.host_port ≢ 0
  resolved-positive pos r m =
      elim ((elem-append r (filter is_fixed mappings) resolved.auto).0 (rw resolved.parts at m)) [
        | inl fixed ↦
            let kept = (elem-filter is_fixed r mappings).0 fixed in
            λ z. ground (arith, kept.1, eq_iff r.host_port 0)
        | inr auto ↦
            Assigned-positive range_start range_end r (filter is_auto mappings) resolved.auto
              resolved.assigned auto pos
      ]
