-- ===== src/Position/Write/Appends.antt =====
-- do_write: where it writes, and the position and the references that it leaves.
use csci.Position.Write.{WriteOps, cursor_fits}
use csci.Position.{File, VnodeOps, set_pos, is_int}
use csci.Files.{FileTable, Refs, open_file}
use csci.Paging.{Reply, ebadf, err, ok}
use csci.Prelude.Outcome.{wild, panic, Outcome, done}
use csci.Prelude.{
  true, ltb, plus, ◌-◌, false, ◌||◌, ◌==◌, none, some, ◌+◌, ◌≡◌, if◌then◌else◌, ℕ, ℤ,
}

module _ {W : Type 0} (refs : W → ℕ → ℕ) (k : Refs W) (ops : VnodeOps W) (wr : WriteOps W) where
  -- fget and fput change the references of their file by one, a write changes none, and a length is an int that
  -- is not negative.
  pub record WriteLaws : Type 0 where
    pub get_one : (f g : ℕ) (w : W) → refs (k.fget f w) g ≡ refs w g + (if g == f then 1 else 0)
    pub put_one : (f g : ℕ) (w : W) → refs (k.fput f w) g ≡ refs w g - (if g == f then 1 else 0)
    pub write_none : (v n g : ℕ) (p : ℤ) (w : W) → refs (wr.write v p n w).1 g ≡ refs w g
    pub len : ℕ → W → ℕ
    pub len_is : (v : ℕ) (w : W) → ops.vn_len v w ≡ ℤ.pos (len v w)
    pub len_int : (v : ℕ) (w : W) → ltb (len v w) 2147483648 ≡ true

  -- Where the write begins: at the end of a file that is open for appending, at its position otherwise.
  abbrev pub start : ℕ → (ℕ → File) → W → ℤ
  start f files w =
      if wr.fmode_append f
      then ops.vn_len (files f).f_vnode (k.fget f (k.fget f w))
      else (files f).f_pos

  -- What the write of the vnode finds.
  abbrev pub before : ℕ → W → W
  before f w = if wr.fmode_append f then k.fput f (k.fget f (k.fget f w)) else k.fget f w

  abbrev pub written : ℕ → ℕ → (ℕ → File) → W → ℤ × W
  written f nbytes files w = wr.write (files f).f_vnode (start f files w) nbytes (before f w)

  pub data Written (fd : ℤ) (nbytes : ℕ) (table : FileTable) (files : ℕ → File) (w : W)
      : Outcome (Reply ℤ × (ℕ → File) × W) → Type 0 where
    not_open :
        open_file table fd ≡ none → Written fd nbytes table files w (done (err ebadf, files, w))
    not_writable :
        (f : ℕ) (w' : W)
        → open_file table fd ≡ some f
        → (wr.fmode_write f || wr.fmode_append f) ≡ false
        → ((g : ℕ) → refs w' g ≡ refs w g)
        → Written fd nbytes table files w (done (err ebadf, files, w'))
    wrote :
        (f : ℕ) (z : ℤ) (files' : ℕ → File) (w1 w' : W)
        → open_file table fd ≡ some f
        → written f nbytes files w ≡ (z, w1)
        → cursor_fits k ops wr (files f).f_vnode (plus (start f files w) z) w1 ≡ true
        → files' ≡ set_pos f (plus (start f files w) z) files
        → ((g : ℕ) → refs w' g ≡ refs w g)
        → Written fd nbytes table files w (done (ok z, files', w'))
    past_end :
        (f : ℕ) (z : ℤ) (w1 : W)
        → open_file table fd ≡ some f
        → written f nbytes files w ≡ (z, w1)
        → cursor_fits k ops wr (files f).f_vnode (plus (start f files w) z) w1 ≡ false
        → Written fd nbytes table files w panic
    overflow :
        (f : ℕ)
        → open_file table fd ≡ some f
        → is_int (plus (start f files w) (written f nbytes files w).0) ≡ false
        → Written fd nbytes table files w wild
