-- ===== src/Storage/Host/Sorted.antt =====
-- The order in which the host shows a directory.
use Prim.Native.Nat.{Ordering}
use mathlib.Core.List.{Perm, IsChain}
use mathlib.Core.List.Perm
use asteria_firmware.Prelude.{
  ◌≡◌, refl, sym, ap, ◌∙◌, arith, false, true, List, [], ◌∷◌, Bool-cases, inl, inr,
}
use asteria_firmware.Storage.Wire.{FsDirEntry, FsNodeKind, file, dir}
use asteria_firmware.Storage.Natural.{natural_cmp_ascii}
use asteria_firmware.Storage.Natural.Flip.{flip, natural_cmp_ascii-flip}
use asteria_firmware.Storage.Host.{entry_cmp, is_greater, insert_entry, sort_dir_entries}

-- An entry that may stand in front of another: a directory in front of anything that is no directory,
-- and of two of a kind the first when its name is not the greater one.
pub data MayPrecede (a b : FsDirEntry) : Type 0 where
  dir_first : a.kind ≡ dir → b.kind ≡ file → MayPrecede a b
  by_name : a.kind ≡ b.kind → ¬ (natural_cmp_ascii a.name b.name ≡ Ordering.gt) → MayPrecede a b

abbrev NotGreater : FsDirEntry → FsDirEntry → Type 0
NotGreater a b = is_greater (entry_cmp a b) ≡ false

not_greater : (o : Ordering) → is_greater o ≡ false → ¬ (o ≡ Ordering.gt)
not_greater o h p = differ (sym (ap is_greater p) ∙ h)
  where
    differ : ¬ (true ≡ false)
    differ e = cc

NotGreater-MayPrecede : (a b : FsDirEntry) → NotGreater a b → MayPrecede a b
NotGreater-MayPrecede a b h = by_kind a.kind b.kind refl refl
  where
    by_kind : (k m : FsNodeKind) → a.kind ≡ k → b.kind ≡ m → MayPrecede a b
    by_kind dir file p q = dir_first p q
    by_kind dir dir p q = by_name (p ∙ sym q) (not_greater _ (rw (p, q) at h))
    by_kind file file p q = by_name (p ∙ sym q) (not_greater _ (rw (p, q) at h))
    by_kind file dir p q = let over : true ≡ false = rw (p, q) at h in cc

IsChain-MayPrecede : {es : List FsDirEntry} → IsChain NotGreater es → IsChain MayPrecede es
IsChain-MayPrecede IsChain.nil = IsChain.nil
IsChain-MayPrecede (IsChain.singleton e) = IsChain.singleton e
IsChain-MayPrecede (IsChain.cons-cons h rest) =
    IsChain.cons-cons (NotGreater-MayPrecede _ _ h) (IsChain-MayPrecede rest)

entry_cmp-flip : (a b : FsDirEntry) → entry_cmp b a ≡ flip (entry_cmp a b)
entry_cmp-flip a b = by_kind a.kind b.kind refl refl
  where
    by_kind : (k m : FsNodeKind) → a.kind ≡ k → b.kind ≡ m → entry_cmp b a ≡ flip (entry_cmp a b)
    by_kind dir dir h p = rw (h, p) (natural_cmp_ascii-flip a.name b.name)
    by_kind dir file h p = rw (h, p) refl
    by_kind file dir h p = rw (h, p) refl
    by_kind file file h p = rw (h, p) (natural_cmp_ascii-flip a.name b.name)

greater-NotGreater : (a b : FsDirEntry) → is_greater (entry_cmp a b) ≡ true → NotGreater b a
greater-NotGreater a b h = rw (entry_cmp-flip a b) (opposite (entry_cmp a b) h)
  where
    opposite : (o : Ordering) → is_greater o ≡ true → is_greater (flip o) ≡ false
    opposite Ordering.lt p = ground (arith, p)
    opposite Ordering.eq p = refl
    opposite Ordering.gt p = refl

insert_entry-Perm : (e : FsDirEntry) (es : List FsDirEntry) → Perm (e ∷ es) (insert_entry e es)
unfolding insert_entry
insert_entry-Perm e [] = Perm.rfl
insert_entry-Perm e (d ∷ ds) = elim (Bool-cases (is_greater (entry_cmp e d))) [
  | inl over ↦ rw over (Perm.trans (Perm.swap d e ds) (Perm.cons d (insert_entry-Perm e ds)))
  | inr under ↦ rw under Perm.rfl
]

-- An entry put into a list behind a head that is not greater than it.
insert_entry-behind :
    (c e : FsDirEntry) (es : List FsDirEntry)
    → NotGreater c e
    → IsChain NotGreater (c ∷ es)
    → IsChain NotGreater (c ∷ insert_entry e es)
unfolding insert_entry
insert_entry-behind c e [] h s = IsChain.cons-cons h (IsChain.singleton e)
insert_entry-behind c e (d ∷ ds) h (IsChain.cons-cons p s) =
    elim (Bool-cases (is_greater (entry_cmp e d))) [
      | inl over ↦
          rw over (IsChain.cons-cons p (insert_entry-behind d e ds (greater-NotGreater e d over) s))
      | inr under ↦ rw under (IsChain.cons-cons h (IsChain.cons-cons under s))
    ]

insert_entry-IsChain :
    (e : FsDirEntry) (es : List FsDirEntry)
    → IsChain NotGreater es
    → IsChain NotGreater (insert_entry e es)
unfolding insert_entry
insert_entry-IsChain e [] s = IsChain.singleton e
insert_entry-IsChain e (d ∷ ds) s = elim (Bool-cases (is_greater (entry_cmp e d))) [
  | inl over ↦ rw over (insert_entry-behind d e ds (greater-NotGreater e d over) s)
  | inr under ↦ rw under (IsChain.cons-cons under s)
]

insertion-IsChain_Perm :
    (es : List FsDirEntry)
    → IsChain NotGreater (sort_dir_entries es) × Perm es (sort_dir_entries es)
unfolding sort_dir_entries
insertion-IsChain_Perm [] = (IsChain.nil, Perm.rfl)
insertion-IsChain_Perm (e ∷ es) =
    let rest = insertion-IsChain_Perm es in
    (
      insert_entry-IsChain e (sort_dir_entries es) rest.0,
      Perm.trans (Perm.cons e rest.1) (insert_entry-Perm e (sort_dir_entries es)),
    )

-- The entries of a directory are shown each once, the directories in front of the files, and of two
-- neighbours of a kind the first has not the greater name in the natural order.
pub sort_dir_entries-sorts :
    (es : List FsDirEntry)
    → IsChain MayPrecede (sort_dir_entries es) × Perm es (sort_dir_entries es)
sort_dir_entries-sorts es =
    (IsChain-MayPrecede (insertion-IsChain_Perm es).0, (insertion-IsChain_Perm es).1)
