-- ===== src/Guards/Loop.antt =====
-- compute_space/src/compute_space/core/image_pruner.py: the loop of a sweep over the images.
use mathlib.Core.Path.{subst}
use aerosol.Prelude.{
  ℕ, ◌+◌, ◌≤◌, nat_eq, list_eq, ◌==◌, eq_iff, if◌then◌else◌, ◌≡◌, ◌≢◌, ◌↔◌, refl, sym, ap, ◌∙◌, inl,
  inr, Bool, true, false, none, some, List, [], ◌∷◌, arith, Elem, elem-delete_where, contains_iff,
  Text, Bool-cases,
}
use aerosol.Db.{Db}
use aerosol.Guards.{
  Removal, removed, refused, timed_out, without_id, Sweeping, OpenHostImage, app_names, is_orphan,
  sweep_images,
}

-- No app has the image's name, in any status, and the image has the age.
abbrev pub IsOrphan : Db → ℕ → ℕ → OpenHostImage → Type 0
IsOrphan db max_age now image =
    (¬ Elem image.app_name (app_names db)) × (image.created_epoch + max_age ≤ now)

is_orphan_iff :
    (db : Db) (max_age now : ℕ) (image : OpenHostImage)
    → (is_orphan (app_names db) max_age now image ≡ true) ↔ IsOrphan db max_age now image
unfolding is_orphan
is_orphan_iff db max_age now image = ground (arith, contains_iff image.app_name (app_names db))

some_same : {a b : Text} → some a ≡ some b → a ≡ b
some_same e = cc

-- The removal that ended the sweep has taken the image all the same.
abbrev pub IsLost : (Text → Removal) → Sweeping → Text → Type 0
IsLost remove_image_by_id sweep image_id =
    (sweep.raised ≡ some image_id) × (remove_image_by_id image_id ≡ timed_out true)

module _ (db : Db) (max_age now : ℕ) where
  -- One of the images is an orphan with this id.
  pub record HasOrphan (images : List OpenHostImage) (id : Text) : Type 0 where
    pub image : OpenHostImage
    pub listed : Elem image images
    pub named : image.image_id ≡ id
    pub orphan : IsOrphan db max_age now image

  one_more :
      (x : OpenHostImage) (images : List OpenHostImage) (id : Text)
      → HasOrphan images id
      → HasOrphan (x ∷ images) id
  one_more x images id h = record {
    image = h.image;
    listed = inr h.listed;
    named = h.named;
    orphan = h.orphan;
  }

  the_first :
      (x : OpenHostImage) (images : List OpenHostImage) (id : Text)
      → x.image_id ≡ id
      → IsOrphan db max_age now x
      → HasOrphan (x ∷ images) id
  the_first x images id e orphan = record {
    image = x;
    listed = inl refl;
    named = e;
    orphan = orphan;
  }

module _ (remove_image_by_id : Text → Removal) (db : Db) (max_age now : ℕ) where
  -- Tags that podman had and has no more, the ids that the loop answers with, and where it raises.
  pub record Swept (images left : List OpenHostImage) (sweep : Sweeping) : Type 0 where
    pub kept :
        (image : OpenHostImage)
        → Elem image sweep.left ↔ (
            Elem image left
            × (¬ Elem image.image_id sweep.ids)
            × (¬ IsLost remove_image_by_id sweep image.image_id))
    pub taken :
        (id : Text)
        → Elem id sweep.ids
        → HasOrphan db max_age now images id × (remove_image_by_id id ≡ removed)
    pub thorough :
        sweep.raised ≡ none
        → (image : OpenHostImage) → Elem image images
        → IsOrphan db max_age now image
        → remove_image_by_id image.image_id ≡ removed
        → Elem image.image_id sweep.ids
    pub broken_off :
        (id : Text)
        → sweep.raised ≡ some id
        → HasOrphan db max_age now images id
          × ((lost : Bool) × (remove_image_by_id id ≡ timed_out lost))

  -- An entry that is passed over.
  passed-Swept :
      (x : OpenHostImage) (images left : List OpenHostImage) (sweep : Sweeping)
      → ¬ (IsOrphan db max_age now x × (remove_image_by_id x.image_id ≡ removed))
      → Swept images left sweep
      → Swept (x ∷ images) left sweep
  passed-Swept x images left sweep stays rest = record {
    kept = rest.kept;
    taken = λ id m. let g = rest.taken id m in (one_more db max_age now x images id g.0, g.1);
    thorough = λ fine image m orphan done. elim m [
      | inl e ↦ absurd (
          stays (
            subst (IsOrphan db max_age now) (sym e) orphan,
            ap (λ (y : OpenHostImage). remove_image_by_id y.image_id) e ∙ done,
          ))
      | inr n ↦ rest.thorough fine image n orphan done
    ];
    broken_off =
        λ id e. let g = rest.broken_off id e in (one_more db max_age now x images id g.0, g.1);
  }

  removed-Swept :
      (x : OpenHostImage) (images left : List OpenHostImage) (sweep : Sweeping)
      → IsOrphan db max_age now x
      → remove_image_by_id x.image_id ≡ removed
      → Swept images (without_id x.image_id left) sweep
      → Swept (x ∷ images) left (record sweep { ids = x.image_id ∷ sweep.ids })
  removed-Swept x images left sweep orphan done rest = record {
    kept = λ image.
        let (to, from) = rest.kept image in
        let (there, back) =
          elem-delete_where (λ (i : OpenHostImage). i.image_id == x.image_id) image left in
        let same = eq_iff image.image_id x.image_id in
        (
          (λ m.
              let (stays, unlisted, held) = to m in
              let (listed, other) = there stays in
              (
                listed,
                (λ n. elim n [ inl e ↦ let k = same.1 (sym e) in cc | inr o ↦ unlisted o ]),
                held,
              )),
          (λ (listed, unlisted, held).
              let apart : image.image_id ≢ x.image_id = λ e. unlisted (inl (sym e)) in
              let other : (image.image_id == x.image_id) ≡ false = ground (arith, same, apart) in
              from (back (listed, other), (λ o. unlisted (inr o)), held)),
        );
    taken = λ id m. elim m [
      | inl e ↦
          (the_first db max_age now x images id e orphan, ap remove_image_by_id (sym e) ∙ done)
      | inr n ↦ let g = rest.taken id n in (one_more db max_age now x images id g.0, g.1)
    ];
    thorough = λ fine image m o d. elim m [
      | inl e ↦ inl (ap (λ (y : OpenHostImage). y.image_id) e)
      | inr n ↦ inr (rest.thorough fine image n o d)
    ];
    broken_off =
        λ id e. let g = rest.broken_off id e in (one_more db max_age now x images id g.0, g.1);
  }

  timed_out-Swept :
      (x : OpenHostImage) (images left : List OpenHostImage) (lost : Bool)
      → IsOrphan db max_age now x
      → remove_image_by_id x.image_id ≡ timed_out lost
      → Swept (x ∷ images) left (record {
        left = if lost then without_id x.image_id left else left;
        ids = [];
        raised = some x.image_id;
      })
  timed_out-Swept x images left true orphan done = record {
    kept = λ image.
        let (there, back) =
          elem-delete_where (λ (i : OpenHostImage). i.image_id == x.image_id) image left in
        let same = eq_iff image.image_id x.image_id in
        (
          (λ m.
              let (listed, other) = there m in
              (
                listed,
                (λ n. absurd n),
                (λ l.
                    let e : image.image_id ≡ x.image_id = ground (arith, l.0) in
                    let k = same.1 e in cc),
              )),
          (λ (listed, unlisted, held).
              let other : image.image_id ≢ x.image_id =
                λ e. held (ap some (sym e), ap remove_image_by_id e ∙ done) in
              back (listed, ground (arith, same, other))),
        );
    taken = λ id m. absurd m;
    thorough = λ fine image m o d. cc;
    broken_off = λ id e. (
      the_first db max_age now x images id (some_same e) orphan,
      (true, ap remove_image_by_id (sym (some_same e)) ∙ done),
    );
  }
  timed_out-Swept x images left false orphan done = record {
    kept = λ image. (
      (λ m. (
        m,
        (λ n. absurd n),
        (λ l.
            let e : image.image_id ≡ x.image_id = ground (arith, l.0) in
            let k = ap remove_image_by_id e ∙ done in let q = sym k ∙ l.1 in cc),
      )),
      (λ h. h.0),
    );
    taken = λ id m. absurd m;
    thorough = λ fine image m o d. cc;
    broken_off = λ id e. (
      the_first db max_age now x images id (some_same e) orphan,
      (false, ap remove_image_by_id (sym (some_same e)) ∙ done),
    );
  }

  pub sweep_images-Swept :
      (images left : List OpenHostImage)
      → Swept images left (sweep_images remove_image_by_id (app_names db) max_age now images left)
  unfolding sweep_images
  sweep_images-Swept [] left = record {
    kept = λ image. ((λ m. (m, (λ n. absurd n), (λ l. let k = l.0 in cc))), (λ h. h.0));
    taken = λ id m. absurd m;
    thorough = λ fine image m o d. absurd m;
    broken_off = λ id e. cc;
  }
  sweep_images-Swept (x ∷ images) left =
      let goes = is_orphan_iff db max_age now x in
      let without = sweep_images-Swept images (without_id x.image_id left) in
      let passed = sweep_images-Swept images left in
      elim (Bool-cases (is_orphan (app_names db) max_age now x)) [
        | inr other ↦ rw other (passed-Swept x images left _ (λ h. let k = goes.1 h.0 in cc) passed)
        | inl orphan ↦
            rw orphan (by_end (goes.0 orphan) (remove_image_by_id x.image_id) refl without passed)
      ]
    where
      by_end :
          IsOrphan db max_age now x
          → (o : Removal) → remove_image_by_id x.image_id ≡ o
          → Swept images (without_id x.image_id left) (
              sweep_images remove_image_by_id
                (app_names db)
                max_age
                now
                images
                (without_id x.image_id left))
          → Swept images left
              (sweep_images remove_image_by_id (app_names db) max_age now images left)
          → Swept (x ∷ images) left (elim o as (λ _. Sweeping) [
            | removed ↦
                record (sweep_images remove_image_by_id
                  (app_names db)
                  max_age
                  now
                  images
                  (without_id x.image_id left)) {
                    ids =
                        x.image_id
                        ∷ (sweep_images remove_image_by_id
                            (app_names db)
                            max_age
                            now
                            images
                            (without_id x.image_id left)).ids;
                  }
            | refused ↦ sweep_images remove_image_by_id (app_names db) max_age now images left
            | timed_out lost ↦ record {
              left = if lost then without_id x.image_id left else left;
              ids = [];
              raised = some x.image_id;
            }
          ])
      by_end orphan removed e without passed = removed-Swept x images left _ orphan e without
      by_end orphan refused e without passed =
          passed-Swept x images left _ (λ h. let k = sym e ∙ h.1 in cc) passed
      by_end orphan (timed_out lost) e without passed = timed_out-Swept x images left lost orphan e
