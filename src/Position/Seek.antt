-- ===== src/Position/Seek.antt =====
-- do_lseek and do_read: the position that they leave, and the references of the file.
use csci.Paging.{einval, ok, ebadf, eisdir, err, Reply}
use csci.Prelude.Outcome.{wild, done, Outcome}
use csci.Position.{is_int, set_pos, File, Whence, VnodeOps}
use csci.Files.{open_file, FileTable, Refs}
use csci.Prelude.{
  sym, Bool, refl, Option, false, true, is_negative, not, none, some, plus, ℤ, ◌≡◌, ℕ,
}

module _ {W : Type 0} (refs : W → ℕ → ℕ) (k : Refs W) (ops : VnodeOps W) where
  -- fget and fput change the references of their file by one, and a read changes none.
  pub record KeepsRefs : Type 0 where
    pub fput_fget : (f g : ℕ) (w : W) → refs (k.fput f (k.fget f w)) g ≡ refs w g
    pub fput_read :
        (f g v n : ℕ) (p : ℤ) (w : W) → refs (k.fput f (ops.read v p n (k.fget f w)).1) g ≡ refs w g

  -- The position that is asked for.
  abbrev pub target : Whence → ℤ → ℤ → ℤ → ℤ
  target Whence.seek_set offset at size = offset
  target Whence.seek_cur offset at size = plus at offset
  target Whence.seek_end offset at size = plus size offset
  target Whence.other_whence offset at size = ℤ.negsuc 0

  -- What a call does. `Refuses f r` says why it may return `r` and leave the file `f` as it is, and
  -- `Goes f z p` at which position `p` the file is when the call returns `z`.
  pub data Positioned (Refuses : ℕ → Reply ℤ → Type 0) (Goes : ℕ → ℤ → ℤ → Type 0) (fd : ℤ)
      (table : FileTable) (files : ℕ → File) (w : W)
      : Outcome (Reply ℤ × (ℕ → File) × W) → Type 0 where
    not_open :
        open_file table fd ≡ none
        → Positioned Refuses Goes fd table files w (done (err ebadf, files, w))
    refused :
        (f : ℕ) (r : Reply ℤ) (w' : W)
        → open_file table fd ≡ some f
        → Refuses f r
        → ((g : ℕ) → refs w' g ≡ refs w g)
        → Positioned Refuses Goes fd table files w (done (r, files, w'))
    moved :
        (f : ℕ) (z p : ℤ) (w' : W)
        → open_file table fd ≡ some f
        → is_negative z ≡ false
        → Goes f z p
        → ((g : ℕ) → refs w' g ≡ refs w g)
        → Positioned Refuses Goes fd table files w (done (ok z, set_pos f p files, w'))
    overflow :
        (f : ℕ) (z p : ℤ)
        → open_file table fd ≡ some f
        → Goes f z p
        → is_int p ≡ false
        → Positioned Refuses Goes fd table files w wild

  -- Why do_read leaves the position as it is: the file is a directory, it is not open for reading, or the
  -- read of the vnode fails.
  pub data Unread (nbytes : ℕ) (files : ℕ → File) (w : W) (f : ℕ) : Reply ℤ → Type 0 where
    directory : ops.has_read (files f).f_vnode ≡ false → Unread nbytes files w f (err eisdir)
    not_readable : (files f).fmode_read ≡ false → Unread nbytes files w f (err ebadf)
    fails :
        is_negative (ops.read (files f).f_vnode (files f).f_pos nbytes (k.fget f w)).0 ≡ true
        → Unread nbytes files w f
            (ok (ops.read (files f).f_vnode (files f).f_pos nbytes (k.fget f w)).0)

  -- What do_read returns and where the file goes otherwise.
  abbrev pub Read : ℕ → (ℕ → File) → W → ℕ → ℤ → ℤ → Type 0
  Read nbytes files w f z p =
      (z ≡ (ops.read (files f).f_vnode (files f).f_pos nbytes (k.fget f w)).0)
      × (p ≡ plus (files f).f_pos z)

  -- The position that do_lseek is asked for in the file `f`.
  abbrev pub asked : Whence → ℤ → (ℕ → File) → W → ℕ → ℤ
  asked whence offset files w f =
      target whence offset (files f).f_pos (ops.vn_len (files f).f_vnode (k.fget f w))

  -- Why do_lseek leaves the position as it is: whence is none of the three, or the position would be negative.
  pub data Unmoved (whence : Whence) (offset : ℤ) (files : ℕ → File) (w : W) (f : ℕ)
      : Reply ℤ → Type 0 where
    no_whence : whence ≡ Whence.other_whence → Unmoved whence offset files w f (err einval)
    negative :
        is_negative (asked whence offset files w f) ≡ true
        → Unmoved whence offset files w f (err einval)

  abbrev pub Sought : Whence → ℤ → (ℕ → File) → W → ℕ → ℤ → ℤ → Type 0
  Sought whence offset files w f z p = (z ≡ p) × (p ≡ asked whence offset files w f)

pub not-true : {b : Bool} → not b ≡ true → b ≡ false
not-true {b = true} e = sym e
not-true {b = false} e = refl

module _ {W : Type 0} (refs : W → ℕ → ℕ) (k : Refs W) (ops : VnodeOps W)
    (law : KeepsRefs refs k ops) where
  -- What do_lseek does with the position that the switch chooses.
  abbrev answer : ℕ → (ℕ → File) → W → Option ℤ → Outcome (Reply ℤ × (ℕ → File) × W)
  answer f files w p = done (elim p [
    | none ↦ (err einval, files, k.fput f (k.fget f w))
    | some q ↦ (ok q, set_pos f q files, k.fput f (k.fget f w))
  ])
