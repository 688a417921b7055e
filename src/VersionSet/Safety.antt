-- ===== src/VersionSet/Safety.antt =====
-- No file in use is reclaimed, in any history of a version set with its readers.
use enigma.Prelude.{
  ℕ, zero, suc, Bool, true, false, List, [], ◌∷◌, ◌++◌, ◌≡◌, refl, sym, ◌∙◌, ◌⊎◌, inl, inr, arith,
  All, All-imp, Bool-cases, subst,
}
use enigma.Error.{ok, ok-injective}
use enigma.VersionSet.{
  SstableId, Version, VersionEdit, VersionSet, contains, remove_unused, insert_ids, insert_versions,
  reclaim, purge_obsolete_files, published, append_version, apply, all_present, add_all, erase_all,
}
use enigma.VersionSet.Reclaim.{
  Held, release, System, Step, Step.get_current, Step.leave, Step.edit, Reach, Reach.start,
  Reach.later, IsTracked, reader-kept, current-kept, insert_ids-new, insert_versions-new,
  insert_versions-kept, reclaim-missing,
}

-- Neither the current version nor a version that a reader holds has the file.
pub record IsUnused (s : System) (id : SstableId) : Type 0 where
  pub current : contains id s.set.current_version.files ≡ false
  pub readers : (v : Version) → Held v s.readers → contains id v.files ≡ false

not_true : {b : Bool} → (b ≡ true → ⊥) → b ≡ false
not_true {b} h = elim (Bool-cases b) [ inl e ↦ absurd (h e) | inr e ↦ e ]

-- What a purge makes of a tracked system.
record Purged (s : System) (result : List SstableId × VersionSet) : Type 0 where
  unused : All (IsUnused (record s { set = result.1 })) result.0
  tracked : IsTracked (record s { set = result.1 })

purge-Purged : (s : System) → IsTracked s → Purged s (purge_obsolete_files s.readers s.set)
unfolding purge_obsolete_files
purge-Purged s t =
    let live = remove_unused s.readers s.set s.set.live_versions in
    let mine = insert_ids s.set.current_version.files [] in
    let live_ids = insert_versions live mine in
    let kept : (v : Version) → Held v s.readers → Held v live =
      λ v h. reader-kept s.readers s.set v h (t.readers v h) in
    record {
      unused =
          All-imp (reclaim live_ids s.set.pending_obsolete_ids).0
            (λ id missing. record {
              current = not_true (λ h.
                  absurd_bool
                    (insert_versions-kept id live mine
                      (insert_ids-new id s.set.current_version.files [] h))
                    missing);
              readers = λ v r.
                  not_true
                    (λ h. absurd_bool (insert_versions-new id v live mine (kept v r) h) missing);
            })
            (reclaim-missing live_ids s.set.pending_obsolete_ids);
      tracked = record { current = current-kept s.readers s.set t.current; readers = kept };
    }
  where
    absurd_bool : {b : Bool} → b ≡ true → b ≡ false → ⊥
    absurd_bool h k = cc

Held-append : (v : Version) (vs ws : List Version) → Held v vs ⊎ Held v ws → Held v (vs ++ ws)
Held-append v [] ws (inl h) = absurd h
Held-append v [] ws (inr h) = h
Held-append v (w ∷ vs) ws (inl (inl e)) = inl e
Held-append v (w ∷ vs) ws (inl (inr h)) = inr (Held-append v vs ws (inl h))
Held-append v (w ∷ vs) ws (inr h) = inr (Held-append v vs ws (inr h))

published-IsTracked :
    (s : System) (v : Version) (ids : List SstableId)
    → IsTracked s
    → IsTracked (record s { set = published s.set v ids })
published-IsTracked s v ids t = record {
  current = Held-append v s.set.live_versions (v ∷ []) (inr (inl refl));
  readers = λ w h. Held-append w s.set.live_versions (v ∷ []) (inl (t.readers w h));
}

-- The version that an edit makes.
abbrev pub edited : ℕ → VersionEdit → VersionSet → Version
edited address e s = record {
  address = address;
  files = add_all e.added (erase_all e.removed s.current_version.files);
}

pub apply-present :
    (readers : List Version) (address : ℕ) (e : VersionEdit) (s : VersionSet)
    → all_present s.current_version.files e.removed ≡ true
    → apply readers address e s
      ≡ ok (purge_obsolete_files readers (published s (edited address e s) e.removed))
apply-present readers address e s h = unfold apply append_version in rw h

apply-Purged :
    (s : System) (address : ℕ) (e : VersionEdit) {result : List SstableId × VersionSet}
    → IsTracked s
    → apply s.readers address e s.set ≡ ok result
    → Purged s result
apply-Purged s address e t h =
    elim (Bool-cases (all_present s.set.current_version.files e.removed)) [
      | inl present ↦
          let v = edited address e s.set in
          let p = purge-Purged _ (published-IsTracked s v e.removed t) in
          subst (Purged s)
            (ok-injective (sym (apply-present s.readers address e s.set present) ∙ h))
            (record { unused = p.unused; tracked = p.tracked })
      | inr stale ↦ absurd (unfold apply in ground arith)
    ]

Held-release : (n : ℕ) (v : Version) (vs : List Version) → Held v (release n vs) → Held v vs
unfolding release
Held-release zero v [] h = h
Held-release (suc n) v [] h = h
Held-release zero v (w ∷ vs) h = inr h
Held-release (suc n) v (w ∷ vs) (inl e) = inl e
Held-release (suc n) v (w ∷ vs) (inr h) = inr (Held-release n v vs h)

Step-IsTracked : (s t : System) → Step s t → IsTracked s → IsTracked t
Step-IsTracked s _ get_current i = record {
  current = i.current;
  readers = λ v. elim [
    | inl e ↦ subst (λ w. Held w s.set.live_versions) e i.current
    | inr h ↦ i.readers v h
  ];
}
Step-IsTracked s _ (leave n) i = record {
  current = i.current;
  readers = λ v h. i.readers v (Held-release n v s.readers h);
}
Step-IsTracked s _ (edit address e h) i = (apply-Purged s address e i h).tracked

Reach-IsTracked : (first : Version) (s : System) → Reach first s → IsTracked s
Reach-IsTracked first _ start = record { current = inl refl; readers = λ v h. absurd h }
Reach-IsTracked first _ (later {s} {t} r step) = Step-IsTracked s t step (Reach-IsTracked first s r)

-- In any history of readers that take the current version and give it up again, and of edits that
-- are applied, no edit returns the id of a file for removal that is in the new current version or
-- in a version that a reader still holds.
pub apply-IsUnused :
    (first : Version) (s : System) (address : ℕ) (e : VersionEdit) (reclaimable : List SstableId)
    (set : VersionSet)
    → Reach first s
    → apply s.readers address e s.set ≡ ok (reclaimable, set)
    → All (IsUnused (record s { set = set })) reclaimable
apply-IsUnused first s address e reclaimable set r h =
    (apply-Purged s address e (Reach-IsTracked first s r) h).unused
