-- ===== src/Storage/Remote/Folder.antt =====
-- Listing a directory of the device from the host.
use Prim.Native.Nat.{min}
use asteria_firmware.Prelude.{
  ℕ, zero, suc, ◌+◌, ◌-◌, ◌^◌, ◌≤◌, ◌<◌, ◌≡◌, refl, sym, ◌∙◌, ap, arith, true, false, List, [], ◌∷◌,
  ◌++◌, none, some, Bool-cases, inl, inr, ltb, leb, ◌==◌, if◌then◌else◌, length, take, drop,
}
use asteria_firmware.Storage.Text.{Text, is_empty, byte_len}
use asteria_firmware.Storage.Wire.{
  fs_path_cap, fs_name_cap, fs_dir_page_cap, no_error, FsListDirResp, FsDirEntry,
}
use asteria_firmware.Storage.Path.{fine, normalize_req_path}
use asteria_firmware.Storage.Littlefs.{Littlefs, LfsEntry, HoldsDir}
use asteria_firmware.Storage.Device.{
  Device, Page, saturating_add, epoch_matches, is_dots, empty_page, page_resp, handle_fs_info,
  handle_list_dir, list_path, serve_list,
}
use asteria_firmware.Storage.Device.Pages.{
  sent_as, filled, visible, to_entries, to_entries-append, scan_dir-filled,
}
use asteria_firmware.Storage.Host.{
  Outcome, done, kept_entries, sort_dir_entries, list_page, list_rest, list_dir_entries, fs_info,
}
use asteria_firmware.Storage.Remote.{host_client}
use asteria_firmware.Storage.Remote.File.{take-add}

-- No entry is one of "." and "..".
unfoldable ArePlain : List LfsEntry → Type 0
ArePlain [] = Unit {0}
ArePlain (e ∷ es) = (is_dots e.name ≡ false) × ArePlain es

visible-ArePlain : (es : List LfsEntry) → ArePlain (visible es)
unfolding visible ArePlain
visible-ArePlain [] = tt
visible-ArePlain (e ∷ es) = elim (Bool-cases (is_dots e.name)) [
  | inl dots ↦ rw dots (visible-ArePlain es)
  | inr plain ↦ rw plain (plain, visible-ArePlain es)
]

take-ArePlain : (k : ℕ) (es : List LfsEntry) → ArePlain es → ArePlain (take k es)
unfolding ArePlain
take-ArePlain zero es h = tt
take-ArePlain (suc k) [] h = tt
take-ArePlain (suc k) (e ∷ es) h = (h.0, take-ArePlain k es h.1)

drop-ArePlain : (k : ℕ) (es : List LfsEntry) → ArePlain es → ArePlain (drop k es)
unfolding ArePlain
drop-ArePlain zero es h = h
drop-ArePlain (suc k) [] h = tt
drop-ArePlain (suc k) (e ∷ es) h = drop-ArePlain k es h.1

-- No entry that the device sends is dropped by the host.
kept-to_entries : (es : List LfsEntry) → ArePlain es → kept_entries (to_entries es) ≡ to_entries es
unfolding kept_entries to_entries ArePlain
kept-to_entries [] h = refl
kept-to_entries (e ∷ es) h = elim (Bool-cases (leb (byte_len e.name) fs_name_cap)) [
  | inl fits ↦ rw (fits, h.0) (ap (λ r. sent_as e ∷ r) (kept-to_entries es h.1))
  | inr long ↦ rw long (kept-to_entries es h.1)
]

take-over : {A : Type 0} (k : ℕ) (xs : List A) → length xs ≤ k → take k xs ≡ xs
take-over zero [] h = refl
take-over zero (x ∷ xs) h = absurd (omega arith)
take-over (suc k) [] h = refl
take-over (suc k) (x ∷ xs) h = ap (λ ys. x ∷ ys) (take-over k xs (omega arith))

module _ (l : Littlefs) (d : Device l) (s : l.State) (path p : Text) (es : List LfsEntry)
    (ready : d.fs ≡ some s) (named : is_empty path ≡ false) (short : byte_len path ≤ fs_path_cap)
    (normal : normalize_req_path path ≡ fine p) (held : HoldsDir l s p es)
    (small : length (visible es) < 2 ^ 32) where
  abbrev vs : List LfsEntry
  vs = visible es

  abbrev shown : List FsDirEntry → Outcome (Device l) (List FsDirEntry)
  shown out = done (sort_dir_entries out) d

  -- The page that the device sends.
  abbrev page_from : ℕ → Page
  page_from c = record {
    entries = to_entries (take fs_dir_page_cap (drop c vs));
    total_entries = length vs;
    page_scanned = min fs_dir_page_cap (length vs - c);
  }

  filled-page_from : (c : ℕ) → filled c fs_dir_page_cap vs empty_page ≡ page_from c
  filled-page_from c =
      let start : c - 0 ≡ c = omega arith in
      let total : 0 + length vs ≡ length vs = omega arith in
      let counted : 0 + min (fs_dir_page_cap - 0) (length vs - (c - 0))
          ≡ min fs_dir_page_cap (length vs - c) =
        omega arith in
      λ i. record {
        entries = to_entries (take fs_dir_page_cap (drop (start i) vs));
        total_entries = total i;
        page_scanned = counted i;
      }

  abbrev page_at : ℕ → FsListDirResp
  page_at c = page_resp d.epoch c (page_from c)

  served :
      (c : ℕ)
      → serve_list l d.fs d.epoch
          (record { path = path; cursor = c; max_entries = fs_dir_page_cap; expected_epoch = none })
        ≡ page_at c
  unfolding serve_list handle_list_dir epoch_matches list_path
  served c =
      rw (ready, normal, held.dir_accepted, held.listed)
        (ap (page_resp d.epoch c) (
          scan_dir-filled c fs_dir_page_cap es empty_page (omega arith)
            (omega arith, omega arith, omega (arith, small))
          ∙ filled-page_from c))

  asked :
      (c : ℕ)
      → (host_client l).fs_list_dir_page d
          (record { path = path; cursor = c; max_entries = fs_dir_page_cap; expected_epoch = none })
        ≡ (some (page_at c), d)
  asked c = rw (named, fits) (ap (λ r. (some r, d)) (served c))
    where
      fits : leb (byte_len path) fs_path_cap ≡ true
      fits = ground (arith, short)

  kept-slice :
      (k c : ℕ) → kept_entries (to_entries (take k (drop c vs))) ≡ to_entries (take k (drop c vs))
  kept-slice k c = kept-to_entries _ (take-ArePlain k _ (drop-ArePlain c vs (visible-ArePlain es)))

  slices :
      (c k : ℕ)
      → to_entries (take c vs) ++ to_entries (take k (drop c vs)) ≡ to_entries (take (c + k) vs)
  slices c k = rw (take-add c k vs) (sym (to_entries-append (take c vs) (take k (drop c vs))))

  -- The match on a page that holds these entries.
  paged :
      (again : ℕ → List FsDirEntry → Device l → Outcome (Device l) (List FsDirEntry)) (next : ℕ)
      (out entries more : List FsDirEntry)
      → out ++ kept_entries entries ≡ more
      → list_page
          (host_client l)
          again
          out
          (record { err = no_error; epoch = d.epoch; entries = entries; next_cursor = next })
          d
        ≡ (if next == 0 then done (sort_dir_entries more) else again next more) d
  unfolding list_page
  paged again next out entries more h =
      rw h (elim (Bool-cases (next == 0)) [ inl last ↦ rw last refl | inr onward ↦ rw onward refl ])

  taken :
      (c : ℕ)
      → to_entries (take c vs) ++ kept_entries (to_entries (take fs_dir_page_cap (drop c vs)))
        ≡ to_entries (take (c + fs_dir_page_cap) vs)
  taken c =
      ap (λ ys. to_entries (take c vs) ++ ys) (kept-slice fs_dir_page_cap c)
      ∙ slices c fs_dir_page_cap

  -- One round, with the rounds behind it.
  round-shown :
      (again : ℕ → List FsDirEntry → Device l → Outcome (Device l) (List FsDirEntry)) (c : ℕ)
      → c ≤ length vs
      → (c + fs_dir_page_cap < length vs
          → again (c + fs_dir_page_cap) (to_entries (take (c + fs_dir_page_cap) vs)) d
            ≡ shown (to_entries vs))
      → list_page (host_client l) again (to_entries (take c vs)) (page_at c) d
        ≡ shown (to_entries vs)
  unfolding page_resp
  round-shown again c within rest =
      elim (Bool-cases (ltb (saturating_add c (min fs_dir_page_cap (length vs - c))) (length vs))) [
        | inl more ↦
            let next : saturating_add c (min fs_dir_page_cap (length vs - c))
                ≡ c + fs_dir_page_cap =
              ground (arith, more, small) in
            let onward : (c + fs_dir_page_cap == 0) ≡ false = ground arith in
            rw more (
              paged again _ _ _ _ (taken c)
              ∙ rw (next, onward) (rest (ground (arith, more, small))))
        | inr last ↦ rw last (
            paged again _ _ _ _ (taken c)
            ∙ ap shown (ap to_entries (take-over _ vs (ground (arith, last, small)))))
      ]

  list_rest-shown :
      (fuel c : ℕ)
      → c ≤ length vs
      → length vs - c < fuel
      → list_rest (host_client l) fuel path fs_dir_page_cap c (to_entries (take c vs)) d
        ≡ shown (to_entries vs)
  unfolding list_rest
  list_rest-shown zero c within enough = absurd (omega arith)
  list_rest-shown (suc fuel) c within enough = rw (asked c) (
      round-shown (list_rest (host_client l) fuel path fs_dir_page_cap) c within
        (λ more. list_rest-shown fuel (c + fs_dir_page_cap) (omega arith) (omega arith)))

  -- When the device has a file system and a directory with fewer than 2^32 entries besides "." and
  -- ".." stands at the normalised path of a request that is not empty and fits the wire, the host,
  -- allowed more pages than there are such entries, lists each of them whose name fits a message,
  -- sorted, and the device is as it was.
  pub list_dir_entries-listed :
      (pages : ℕ)
      → length vs < pages
      → list_dir_entries (host_client l) pages path d
        ≡ done (sort_dir_entries (to_entries (visible es))) d
  unfolding list_dir_entries fs_info handle_fs_info to_entries
  list_dir_entries-listed pages enough = list_rest-shown pages 0 (omega arith) (omega arith)
