-- ===== src/Archive/Saved.antt =====
-- `save_astr` and `restore_astr` of net_common.h: a text that is kept in a file as an archive. The
-- archive is a parameter: what it writes for a text, and how it reads one. `none` is its exception on
-- a stream that could not be opened.
use servy.Prelude.{◌>>=◌, ◌≡◌, refl, Option, none, some, if◌then◌else◌, inl, inr, Bool-cases}
use servy.Prelude.Text.{Text}
use servy.Server.Files.{File, fread}

module _ (oa : Text → Text) (ia : Text → Option Text) where
  unfoldable pub save_astr : Text → File → Option File
  save_astr astr file =
      if file.writable then some (record file { content = some (oa astr) }) else none

  unfoldable pub restore_astr : File → Option Text
  restore_astr file = fread ia file

  -- Where the archive gives back what it was given, a text that is saved to a file is restored from
  -- it, whatever was in the file before, and it is an exception if the file cannot be written.
  pub restore_astr-save_astr :
      (astr : Text) (file : File)
      → ia (oa astr) ≡ some astr
      → (save_astr astr file >>= restore_astr) ≡ (if file.writable then some astr else none)
  unfolding save_astr restore_astr
  restore_astr-save_astr astr file h = elim (Bool-cases file.writable) [
    | inl e ↦ rw e h
    | inr e ↦ rw e refl
  ]
