-- ===== src/Agent/Metadata/Table.antt =====
-- The table of apps as a finite map from names, with room for 64.
use sat_build.Prelude.{
  streq_iff, streq, ℕ, ◌≤◌, ◌<◌, ◌≡◌, refl, sym, ◌∙◌, ◌≢◌, ◌↔◌, inl, inr, false, ◌&&◌, none, some,
  List, [], ◌∷◌, ◌++◌, arith, leb, if◌then◌else◌, leb→lt, Bool-cases, Option-cases, none≢some,
  length, length-append, take_all,
}
use sat_build.Agent.Metadata.{
  Entry, max_apps, max_app_name_len, blank, find_app, fill, fill_app, app_metadata_save,
  app_metadata_get,
}

-- What `app_metadata_save` makes of an app.
abbrev pub saved : List ℕ → List ℕ → List ℕ → List ℕ → Entry
saved name path hash time = fill path hash time (record blank { app_name = name })

find_app-fill_app :
    (name path hash time j : List ℕ) (es : List Entry)
    → find_app name es ≢ none
    → find_app j (fill_app name (fill path hash time) es)
      ≡ (if streq name j then some (saved name path hash time) else find_app j es)
unfolding find_app fill_app
find_app-fill_app name path hash time j [] h = absurd (h refl)
find_app-fill_app name path hash time j (e ∷ es) h = ground (
  arith,
  find_app-fill_app name path hash time j es,
  streq_iff e.app_name name,
  streq_iff e.app_name j,
  streq_iff name j,
)

find_app-snoc :
    (j : List ℕ) (es : List Entry) (e : Entry)
    → find_app j (es ++ (e ∷ [])) ≡ (elim (find_app j es) [
      | none ↦ if streq e.app_name j then some e else none
      | some f ↦ some f
    ])
unfolding find_app
find_app-snoc j [] e = refl
find_app-snoc j (f ∷ es) e = ground (arith, find_app-snoc j es e)

length-fill_app :
    (name : List ℕ) (g : Entry → Entry) (es : List Entry) → length (fill_app name g es) ≡ length es
unfolding fill_app
length-fill_app name g [] = refl
length-fill_app name g (e ∷ es) = ground (arith, length-fill_app name g es)

-- What is saved is found, under a name of at most 63 bytes, and every other app as before; the
-- strings are cut to their fields. Where the table is full of other apps nothing changes.
pub get-save :
    (name path hash time j : List ℕ) (es : List Entry)
    → length name < max_app_name_len
    → let r = app_metadata_save name path hash time es in
      app_metadata_get j r.0
      ≡ (if r.1 && streq name j then some (saved name path hash time) else app_metadata_get j es)
unfolding app_metadata_save app_metadata_get
get-save name path hash time j es h = elim (Option-cases (find_app name es)) [
  | inr (e, known) ↦
      rw (known, app_metadata_save)
        (find_app-fill_app name path hash time j es (λ q. none≢some (sym q ∙ known)))
  | inl new ↦ elim (Bool-cases (leb max_apps (length es))) [
    | inl full ↦ rw (new, full, app_metadata_save) refl
    | inr room ↦
        rw (new, room, app_metadata_save, take_all 63 name (omega arith))
          (ground (arith, find_app-snoc j es (saved name path hash time), streq_iff name j))
  ]
]

-- A save fails only where 64 other apps are known, and never goes past 64.
pub save_bounds :
    (name path hash time : List ℕ) (es : List Entry)
    → length es ≤ max_apps
    → let r = app_metadata_save name path hash time es in
      (length r.0 ≤ max_apps)
      × ((r.1 ≡ false) ↔ ((app_metadata_get name es ≡ none) × (length es ≡ max_apps)))
unfolding app_metadata_save app_metadata_get
save_bounds name path hash time es h = elim (Option-cases (find_app name es)) [
  | inr (e, known) ↦
      rw (known, app_metadata_save)
        (
          omega (arith, length-fill_app name (fill path hash time) es),
          (λ q. cc, λ q. absurd (none≢some (sym q.0))),
        )
  | inl new ↦ elim (Bool-cases (leb max_apps (length es))) [
    | inl full ↦ rw (new, full, app_metadata_save) (h, (λ q. (refl, ground arith), λ q. refl))
    | inr room ↦
        rw (new, room, app_metadata_save)
          (
            omega (arith, leb→lt max_apps (length es) room, length-append {0}),
            (λ q. cc, λ q. ground arith),
          )
  ]
]
