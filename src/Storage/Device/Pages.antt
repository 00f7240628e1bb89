-- ===== src/Storage/Device/Pages.antt =====
-- What a page of a directory holds.
use Prim.Native.Nat.{min}
use asteria_firmware.Prelude.{
  ℕ, zero, suc, ◌+◌, ◌-◌, ◌≤◌, ◌<◌, ◌≡◌, refl, sym, ◌∙◌, ap, arith, true, false, List, [], ◌∷◌,
  ◌++◌, append_assoc, append-nil, ◌&&◌, Bool-cases, inl, inr, ltb, leb, if◌then◌else◌, length,
  length-append, take, drop,
}
use asteria_firmware.Storage.Text.{byte_len}
use asteria_firmware.Storage.Wire.{FsDirEntry, fs_name_cap, fs_dir_page_cap}
use asteria_firmware.Storage.Littlefs.{LfsEntry}
use asteria_firmware.Storage.Device.{
  Page, kind_of, push_entry, is_dots, scan_entry, scan_dir, saturating_add, u32_max,
}

-- The entries but for "." and "..".
unfoldable pub visible : List LfsEntry → List LfsEntry
visible [] = []
visible (e ∷ es) = if is_dots e.name then visible es else e ∷ visible es

abbrev pub sent_as : LfsEntry → FsDirEntry
sent_as e = record { kind = kind_of e.is_dir; name = e.name }

-- The entries as they are sent: those whose name fits.
unfoldable pub to_entries : List LfsEntry → List FsDirEntry
to_entries [] = []
to_entries (e ∷ es) =
    if leb (byte_len e.name) fs_name_cap then sent_as e ∷ to_entries es else to_entries es

pub to_entries-append :
    (xs ys : List LfsEntry) → to_entries (xs ++ ys) ≡ to_entries xs ++ to_entries ys
unfolding to_entries
to_entries-append [] ys = refl
to_entries-append (e ∷ es) ys = elim (Bool-cases (leb (byte_len e.name) fs_name_cap)) [
  | inl fits ↦ rw fits (ap (λ r. sent_as e ∷ r) (to_entries-append es ys))
  | inr long ↦ rw long (to_entries-append es ys)
]

-- A page behind some entries.
abbrev pub filled : ℕ → ℕ → List LfsEntry → Page → Page
filled cursor cap vs p = record {
  entries =
      p.entries ++ to_entries (take (cap - p.page_scanned) (drop (cursor - p.total_entries) vs));
  total_entries = p.total_entries + length vs;
  page_scanned =
      p.page_scanned + min (cap - p.page_scanned) (length vs - (cursor - p.total_entries));
}

abbrev pub IsRoomy : ℕ → ℕ → Page → Type 0
IsRoomy cap left p =
    (length p.entries ≤ p.page_scanned)
    × (p.page_scanned ≤ cap)
    × (p.total_entries + left ≤ u32_max)

push_entry-to_entries :
    (e : LfsEntry) (es : List FsDirEntry) (vs : List LfsEntry)
    → length es < fs_dir_page_cap
    → push_entry e es ++ to_entries vs ≡ es ++ to_entries (e ∷ vs)
unfolding to_entries
push_entry-to_entries e es vs h =
    let room : ltb (length es) fs_dir_page_cap ≡ true = ground (arith, h) in
    elim (Bool-cases (leb (byte_len e.name) fs_name_cap)) [
      | inl fits ↦ rw (fits, room) (append_assoc es (sent_as e ∷ []) (to_entries vs))
      | inr long ↦ rw long refl
    ]

length-push_entry : (e : LfsEntry) (es : List FsDirEntry) → length (push_entry e es) ≤ length es + 1
length-push_entry e es = ground (arith, length-append es (sent_as e ∷ []))

abbrev page_of : List FsDirEntry → ℕ → ℕ → Page
page_of es a j = record { entries = es; total_entries = a; page_scanned = j }

page_eq :
    {xs ys : List FsDirEntry} {a b j k : ℕ}
    → xs ≡ ys
    → a ≡ b
    → j ≡ k
    → page_of xs a j ≡ page_of ys b k
page_eq p q r i = page_of (p i) (q i) (r i)

take-nil : {A : Type 0} (k : ℕ) → take {A = A} k [] ≡ []
take-nil zero = refl
take-nil (suc k) = refl

drop-nil : {A : Type 0} (k : ℕ) → drop {A = A} k [] ≡ []
drop-nil zero = refl
drop-nil (suc k) = refl

take-drop-zero : {A : Type 0} (a b : ℕ) (xs : List A) → b ≡ 0 → take a (drop b xs) ≡ take a xs
take-drop-zero a b xs h = rw h refl

take-at-zero : {A : Type 0} (a : ℕ) (xs : List A) → a ≡ 0 → take a xs ≡ []
take-at-zero a xs h = rw h refl

drop-later : {A : Type 0} (a b : ℕ) (x : A) (xs : List A) → a ≡ suc b → drop a (x ∷ xs) ≡ drop b xs
drop-later a b x xs h = rw h refl

take-later :
    {A : Type 0} (a b : ℕ) (x : A) (xs : List A) → a ≡ suc b → take a (x ∷ xs) ≡ x ∷ take b xs
take-later a b x xs h = rw h refl

-- One entry of the directory, and those behind it.
scan_entry-filled :
    (cursor cap : ℕ) (e : LfsEntry) (vs : List LfsEntry) (p : Page)
    → is_dots e.name ≡ false
    → cap ≤ fs_dir_page_cap
    → IsRoomy cap (suc (length vs)) p
    → filled cursor cap vs (scan_entry cursor cap e p) ≡ filled cursor cap (e ∷ vs) p
unfolding scan_entry
scan_entry-filled cursor cap e vs p plain small room =
    let counted : saturating_add p.total_entries 1 ≡ p.total_entries + 1 = omega (arith, room) in
    elim (Bool-cases (leb cursor p.total_entries)) [
      | inr before ↦
          let short : cursor - p.total_entries ≡ suc (cursor - (p.total_entries + 1)) =
            ground (arith, before) in
          rw (plain, before, counted)
            (page_eq
              (ap (λ ys. p.entries ++ to_entries (take (cap - p.page_scanned) ys))
                (sym (drop-later _ _ e vs short)))
              (omega arith) (omega (arith, short)))
      | inl reached ↦
          let here : cursor - p.total_entries ≡ 0 = ground (arith, reached) in
          let past : cursor - (p.total_entries + 1) ≡ 0 = omega (arith, here) in
          elim (Bool-cases (ltb p.page_scanned cap)) [
            | inl open_page ↦
                let scanned : saturating_add p.page_scanned 1 ≡ p.page_scanned + 1 =
                  ground (arith, open_page, small) in
                let next : cap - p.page_scanned ≡ suc (cap - (p.page_scanned + 1)) =
                  ground (arith, open_page) in
                rw (plain, reached, open_page, counted, scanned)
                  (page_eq
                    (ap (λ ys. push_entry e p.entries ++ to_entries ys)
                        (take-drop-zero (cap - (p.page_scanned + 1)) _ vs past)
                      ∙ push_entry-to_entries e p.entries (take (cap - (p.page_scanned + 1)) vs)
                          (ground (arith, open_page, room.0, small))
                      ∙ ap (λ ys. p.entries ++ to_entries ys)
                          (sym (
                            take-drop-zero (cap - p.page_scanned) _ (e ∷ vs) here
                            ∙ take-later _ _ e vs next)))
                    (omega arith) (omega (arith, here, past, next)))
            | inr full ↦
                let none_left : cap - p.page_scanned ≡ 0 = ground (arith, full) in
                rw (plain, reached, full, counted)
                  (page_eq
                    (ap (λ ys. p.entries ++ to_entries ys)
                      (take-at-zero _ _ none_left ∙ sym (take-at-zero _ _ none_left)))
                    (omega arith) (omega (arith, none_left)))
          ]
    ]

scan_entry-IsRoomy :
    (cursor cap left : ℕ) (e : LfsEntry) (p : Page)
    → is_dots e.name ≡ false
    → cap ≤ fs_dir_page_cap
    → IsRoomy cap (suc left) p
    → IsRoomy cap left (scan_entry cursor cap e p)
unfolding scan_entry
scan_entry-IsRoomy cursor cap left e p plain small room =
    let counted : saturating_add p.total_entries 1 ≡ p.total_entries + 1 = omega (arith, room) in
    elim (Bool-cases (leb cursor p.total_entries && ltb p.page_scanned cap)) [
      | inr passed ↦ rw (plain, passed, counted) (room.0, room.1, omega (arith, room))
      | inl counts ↦
          let scanned : saturating_add p.page_scanned 1 ≡ p.page_scanned + 1 =
            ground (arith, counts, small) in
          rw (plain, counts, counted, scanned)
            (
              omega (arith, length-push_entry e p.entries, room),
              ground (arith, counts),
              omega (arith, room),
            )
    ]

scan_entry-dots :
    (cursor cap : ℕ) (e : LfsEntry) (p : Page)
    → is_dots e.name ≡ true
    → scan_entry cursor cap e p ≡ p
unfolding scan_entry
scan_entry-dots cursor cap e p dots = rw dots refl

length-visible-dots :
    (e : LfsEntry) (es : List LfsEntry)
    → is_dots e.name ≡ true
    → length (visible (e ∷ es)) ≡ length (visible es)
unfolding visible
length-visible-dots e es dots = rw dots refl

length-visible-plain :
    (e : LfsEntry) (es : List LfsEntry)
    → is_dots e.name ≡ false
    → length (visible (e ∷ es)) ≡ suc (length (visible es))
unfolding visible
length-visible-plain e es plain = rw plain refl

-- Filling a page over a directory, entry by entry, is to put the visible entries from the cursor on
-- behind those of the page, up to its capacity, and to count all the visible entries, if the page has
-- room for its capacity and for the count.
pub scan_dir-filled :
    (cursor cap : ℕ) (es : List LfsEntry) (p : Page)
    → cap ≤ fs_dir_page_cap
    → IsRoomy cap (length (visible es)) p
    → scan_dir cursor cap es p ≡ filled cursor cap (visible es) p
unfolding scan_dir visible to_entries
scan_dir-filled cursor cap [] p small room =
    page_eq
      (sym (
        ap (λ ys. p.entries ++ to_entries ys)
          (ap (take (cap - p.page_scanned)) (drop-nil (cursor - p.total_entries))
            ∙ take-nil (cap - p.page_scanned))
        ∙ append-nil p.entries))
      (omega arith) (omega arith)
scan_dir-filled cursor cap (e ∷ es) p small room = elim (Bool-cases (is_dots e.name)) [
  | inl dots ↦
      rw (dots, scan_entry-dots cursor cap e p dots)
        (scan_dir-filled cursor cap es p small
          (room.0, room.1, omega (arith, room, length-visible-dots e es dots)))
  | inr plain ↦
      let room' : IsRoomy cap (suc (length (visible es))) p =
        (room.0, room.1, omega (arith, room, length-visible-plain e es plain)) in
      rw plain (
        scan_dir-filled cursor cap es (scan_entry cursor cap e p) small
          (scan_entry-IsRoomy cursor cap (length (visible es)) e p plain small room')
        ∙ scan_entry-filled cursor cap e (visible es) p plain small room')
]
