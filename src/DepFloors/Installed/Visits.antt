-- ===== src/DepFloors/Installed/Visits.antt =====
-- That the walk of scripts/check-dep-floors.js ends, and visits what the directories list.
use mathlib.Core.List.{Memᴰ}
use mathlib.Core.List.Memᴰ
use wax_rng_oracle.Prelude.{
  ℕ, zero, suc, ◌≤◌, ◌≡◌, ◌⊎◌, inl, inr, refl, sym, ap, ◌∙◌, subst, String, true, false, some, List,
  [], ◌∷◌, arith, text_eq, text_eq_iff, Bool-cases,
}
use wax_rng_oracle.DepFloors.Installed.{
  Disk, Package, list_package_dirs, Walked, Walk, finished, is_among, nested, copy_of, push_wanted,
  go_on, visit_all, walk,
}
use wax_rng_oracle.DepFloors.Installed.Seen.{
  unseen, unseen-le, among-cons, among-head, unseen-cons, Grows, Grows-refl, Grows-trans,
}

module _ (disk : Disk) (wanted : List String) (packages : String → List Package)
    (listed : (d : String) → list_package_dirs disk d ≡ some (packages d)) where
  -- The package was visited: it is found if it is wanted, and its own packages are seen.
  pub record Visited (s : Walked) (p : Package) : Type 0 where
    pub copied : is_among p.name wanted ≡ true → Memᴰ (copy_of disk p) s.found
    pub entered : is_among (disk.real (nested disk p)) s.seen ≡ true

  pub record Done (s : Walked) (r : String) : Type 0 where
    pub dir : String
    pub at : disk.real dir ≡ r
    pub each : (p : Package) → Memᴰ p (packages dir) → Visited s p

  -- Every directory that was seen is done, but for those that are still open.
  abbrev pub Sound : List String → Walked → Type 0
  Sound open_dirs s =
      (r : String) → is_among r s.seen ≡ true → (is_among r open_dirs ≡ true) ⊎ Done s r

  Visited-Grows : (s s' : Walked) (p : Package) → Grows s s' → Visited s p → Visited s' p
  Visited-Grows s s' p g v = record {
    copied = λ w. g.found (copy_of disk p) (v.copied w);
    entered = g.seen (disk.real (nested disk p)) v.entered;
  }

  Done-Grows : (s s' : Walked) (r : String) → Grows s s' → Done s r → Done s' r
  Done-Grows s s' r g d = record {
    dir = d.dir;
    at = d.at;
    each = λ p m. Visited-Grows s s' p g (d.each p m);
  }

  push-Grows : (p : Package) (s : Walked) → Grows s (push_wanted disk wanted p s)
  push-Grows p s = elim (Bool-cases (is_among p.name wanted)) [
    | inl asked ↦
        rw asked
          (record { seen = λ r h. h; found = λ c m. Memᴰ.append_left (copy_of disk p ∷ []) m })
    | inr other ↦ rw other (Grows-refl s)
  ]

  push-copied :
      (p : Package) (s : Walked)
      → is_among p.name wanted ≡ true
      → Memᴰ (copy_of disk p) (push_wanted disk wanted p s).found
  push-copied p s h = rw h (Memᴰ.append_right s.found (Memᴰ.head refl))

  seen-push : (p : Package) (s : Walked) → (push_wanted disk wanted p s).seen ≡ s.seen
  seen-push p s = ground arith

  push-Sound :
      (o : List String) (p : Package) (s : Walked)
      → Sound o s
      → Sound o (push_wanted disk wanted p s)
  push-Sound o p s h r k =
      elim (h r (subst (λ (x : List String). is_among r x ≡ true) (seen-push p s) k)) [
        | inl early ↦ inl early
        | inr d ↦ inr (Done-Grows s (push_wanted disk wanted p s) r (push-Grows p s) d)
      ]

  -- How a call ends: with a later state in which no other directory is open.
  pub record Ends (o : List String) (s : Walked) (w : Walk) : Type 0 where
    pub state : Walked
    pub ends : w ≡ finished state
    pub grows : Grows s state
    pub sound : Sound o state

  pub record Enters (o : List String) (s : Walked) (d : String) (w : Walk) : Type 0 where
    pub result : Ends o s w
    pub entered : is_among (disk.real d) result.state.seen ≡ true

  record Visits (o : List String) (s : Walked) (ps : List Package) (w : Walk) : Type 0 where
    pub result : Ends o s w
    pub each : (p : Package) → Memᴰ p ps → Visited result.state p

  module _ (paths : List String)
      (finite : (d : String) → (packages d ≡ []) ⊎ (is_among (disk.real d) paths ≡ true)) where
    -- The fuel that is left is enough.
    abbrev Enough : ℕ → Walked → Type 0
    Enough fuel s = suc (unseen s.seen paths) ≤ fuel

    Enough-Grows : (fuel : ℕ) (s s' : Walked) → Grows s s' → Enough fuel s → Enough fuel s'
    Enough-Grows fuel s s' g h = omega (arith, h, unseen-le s.seen s'.seen paths g.seen)

    nothing-Visits :
        (o : List String) (s : Walked) (w : Walk) → w ≡ finished s → Sound o s → Visits o s [] w
    nothing-Visits o s w e h = record {
      result = record { state = s; ends = e; grows = Grows-refl s; sound = h };
      each = λ p m. absurd (Memᴰ.not-nil m);
    }

    visit_all-Visits :
        (fuel : ℕ) (o : List String) (go : String → Walked → Walk)
        → ((d : String) (s : Walked) → Sound o s → Enough fuel s → Enters o s d (go d s))
        → (ps : List Package) (s : Walked) → Sound o s
        → Enough fuel s
        → Visits o s ps (visit_all disk wanted go ps s)
    unfolding visit_all
    visit_all-Visits fuel o go step [] s h k = nothing-Visits o s (finished s) refl h
    visit_all-Visits fuel o go step (p ∷ ps) s h k =
        let s1 = push_wanted disk wanted p s in
        let g1 = push-Grows p s in
        let e = step (nested disk p) s1 (push-Sound o p s h) (Enough-Grows fuel s s1 g1 k) in
        let s2 = e.result.state in
        let g2 = Grows-trans s s1 s2 g1 e.result.grows in
        let v =
          visit_all-Visits fuel o go step ps s2 e.result.sound (Enough-Grows fuel s s2 g2 k) in
        let s3 = v.result.state in
        record {
          result = record {
            state = s3;
            ends =
                ap (λ (w : Walk). go_on w (visit_all disk wanted go ps)) e.result.ends
                ∙ v.result.ends;
            grows = Grows-trans s s2 s3 g2 v.result.grows;
            sound = v.result.sound;
          };
          each = λ q m. elim m [
            | Memᴰ.head same ↦ subst (Visited s3) (sym same) (
                Visited-Grows s2 s3 p v.result.grows (record {
                  copied = λ w. e.result.grows.found (copy_of disk p) (push-copied p s w);
                  entered = e.entered;
                }))
            | Memᴰ.tail later ↦ v.each q later
          ];
        }

    opened : String → Walked → Walked
    opened r s = record s { seen = r ∷ s.seen }

    opened-Grows : (r : String) (s : Walked) → Grows s (opened r s)
    unfolding opened
    opened-Grows r s = record { seen = λ t h. among-cons t r s.seen h; found = λ c m. m }

    opened-Sound :
        (o : List String) (r : String) (s : Walked) → Sound o s → Sound (r ∷ o) (opened r s)
    unfolding opened
    opened-Sound o r s h t k = elim (Bool-cases (text_eq t r)) [
      | inl same ↦ inl (rw same refl)
      | inr other ↦ elim (h t (ground (arith, other, k))) [
        | inl early ↦ inl (among-cons t r o early)
        | inr d ↦ inr (Done-Grows s (opened r s) t (opened-Grows r s) d)
      ]
    ]

    close :
        (o : List String) (d : String) (s : Walked) (w : Walk)
        → Visits (disk.real d ∷ o) (opened (disk.real d) s) (packages d) w
        → Enters o s d w
    unfolding opened
    close o d s w v = record {
      result = record {
        state = v.result.state;
        ends = v.result.ends;
        grows =
            Grows-trans s (opened (disk.real d) s) v.result.state (opened-Grows (disk.real d) s)
              v.result.grows;
        sound = closed;
      };
      entered = v.result.grows.seen (disk.real d) (among-head (disk.real d) s.seen);
    }
      where
        closed : Sound o v.result.state
        closed r k = elim (v.result.sound r k) [
          | inl early ↦ elim (Bool-cases (text_eq r (disk.real d))) [
            | inl same ↦
                inr (record {
                  dir = d;
                  at = sym ((text_eq_iff r (disk.real d)).0 same);
                  each = v.each;
                })
            | inr other ↦ inl (ground (arith, other, early))
          ]
          | inr done ↦ inr done
        ]

    open-Visits :
        (fuel : ℕ) (o : List String) (d : String) (s : Walked) (go : String → Walked → Walk)
        → ((d' : String) (s' : Walked)
            → Sound (disk.real d ∷ o) s'
            → Enough fuel s'
            → Enters (disk.real d ∷ o) s' d' (go d' s'))
        → Sound o s
        → Enough (suc fuel) s
        → is_among (disk.real d) s.seen ≡ false
        → (packages d ≡ []) ⊎ (is_among (disk.real d) paths ≡ true)
        → Visits
            (disk.real d ∷ o)
            (opened (disk.real d) s)
            (packages d)
            (visit_all disk wanted go (packages d) (opened (disk.real d) s))
    unfolding opened visit_all
    open-Visits fuel o d s go step h k fresh (inl none_inside) =
        let s1 = opened (disk.real d) s in
        subst
          (λ (ps : List Package). Visits (disk.real d ∷ o) s1 ps (visit_all disk wanted go ps s1))
          (sym none_inside)
          (nothing-Visits (disk.real d ∷ o) s1 (finished s1) refl
            (opened-Sound o (disk.real d) s h))
    open-Visits fuel o d s go step h k fresh (inr known) =
        visit_all-Visits fuel (disk.real d ∷ o) go step (packages d) (opened (disk.real d) s)
          (opened-Sound o (disk.real d) s h)
          (omega (arith, k, unseen-cons (disk.real d) s.seen paths known fresh))

    pub walk-Enters :
        (fuel : ℕ) (d : String) (s : Walked) (o : List String)
        → Sound o s
        → Enough fuel s
        → Enters o s d (walk disk wanted fuel d s)
    unfolding walk opened
    walk-Enters zero d s o h k = absurd (omega (arith, k))
    walk-Enters (suc fuel) d s o h k = elim (Bool-cases (is_among (disk.real d) s.seen)) [
      | inl again ↦ rw again (record {
        result = record { state = s; ends = refl; grows = Grows-refl s; sound = h };
        entered = again;
      })
      | inr fresh ↦
          rw (fresh, listed d)
            (close o d s _ (
              open-Visits fuel o d s (walk disk wanted fuel)
                (λ d' s' h' k'. walk-Enters fuel d' s' (disk.real d ∷ o) h' k') h k fresh
                (finite d)))
    ]
