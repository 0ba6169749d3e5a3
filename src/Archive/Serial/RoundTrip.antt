-- ===== src/Archive/Serial/RoundTrip.antt =====
-- What is saved into an archive and loaded from it again (machine.h, run.h, net_common.h), by way of
-- the replacement of the version (SimpleServer.cpp).
use servy.Prelude.{ℕ, ◌≡◌, refl, ap, sym, ◌∙◌, List, [], ◌∷◌, ◌++◌, Option, some, length}
use mathlib.Core.Path.{subst}
use mathlib.Core.List.{append_assoc, append-nil}
use servy.Prelude.Int.{ℤ}
use servy.Prelude.Text.{Text, codes}
use servy.Machine.{Machine}
use servy.Run.{Run}
use servy.Archive.{after_prefix, replace_first, fix_version}
use servy.Archive.Serial.{
  Class, astr_class, machine_class, machines_class, run_class, Prim, int, string, count, enter,
  Boost, astr_prims, machine_prims, elements, machines_prims, run_prims, load_astr, load_machine,
  load_elements, load_machines, load_run, read_one, archive, get_serial_str,
}

-- What the library promises: the loads of an input archive that ask for what was saved, in the order
-- of the saves, give it back. A client's archive begins with version 17, and an archive that says
-- version 16 is read by the server's library.
pub record IsArchive (b : Boost) : Type 1 where
  -- the reader stands before these primitives
  pub Before : b.Reader → List Prim → Type 0
  pub version : b.header ≡ codes "22 serialization::archive 17"
  pub reopened :
      (ps : List Prim)
      → (r : b.Reader) × (b.opened (codes "22 serialization::archive 16" ++ b.body ps) ≡ some r)
        × Before r ps
  pub int_back :
      (r : b.Reader) (n : ℤ) (ps : List Prim)
      → Before r (int n ∷ ps)
      → (r' : b.Reader) × (b.get_int r ≡ some (n, r')) × Before r' ps
  pub string_back :
      (r : b.Reader) (s : Text) (ps : List Prim)
      → Before r (string s ∷ ps)
      → (r' : b.Reader) × (b.get_string r ≡ some (s, r')) × Before r' ps
  pub count_back :
      (r : b.Reader) (n : ℕ) (ps : List Prim)
      → Before r (count n ∷ ps)
      → (r' : b.Reader) × (b.get_count r ≡ some (n, r')) × Before r' ps
  pub enter_back :
      (r : b.Reader) (c : Class) (ps : List Prim)
      → Before r (enter c ∷ ps)
      → (r' : b.Reader) × (b.get_enter c r ≡ some r') × Before r' ps

-- The header of version 17 is what the replacement meets first.
fix_version-header :
    (s : Text)
    → fix_version (codes "22 serialization::archive 17" ++ s)
      ≡ codes "22 serialization::archive 16" ++ s
unfolding fix_version replace_first after_prefix
fix_version-header s = refl

module _ (b : Boost) (v : IsArchive b) where
  -- A load takes these primitives for this value.
  abbrev Loads : {A : Type 0} → (b.Reader → Option (A × b.Reader)) → List Prim → A → Type 0
  Loads {A} load ps x =
      (r : b.Reader) (rest : List Prim)
      → v.Before r (ps ++ rest)
      → (r' : b.Reader) × (load r ≡ some (x, r')) × v.Before r' rest

  load_astr-Loads : (s : Text) → Loads (load_astr b) (astr_prims s) s
  unfolding load_astr astr_prims
  load_astr-Loads s r rest h =
      let (r₁, e₁, h₁) = v.enter_back r astr_class _ h in
      let (r₂, e₂, h₂) = v.string_back r₁ s _ h₁ in (r₂, rw (e₁, e₂), h₂)

  load_machine-Loads : (m : Machine) → Loads (load_machine b) (machine_prims m) m
  unfolding load_machine machine_prims
  load_machine-Loads m r rest h =
      let (r₁, e₁, h₁) = v.enter_back r machine_class _ h in
      let (r₂, e₂, h₂) = v.string_back r₁ m.name _ h₁ in
      let (r₃, e₃, h₃) = v.int_back r₂ m.size _ h₂ in
      let (r₄, e₄, h₄) = v.int_back r₃ m.res _ h₃ in
      let (r₅, e₅, h₅) = v.int_back r₄ m.free _ h₄ in (r₅, rw (e₁, e₂, e₃, e₄, e₅), h₅)

  load_elements-Loads : (ms : List Machine) → Loads (load_elements b (length ms)) (elements ms) ms
  unfolding load_elements elements
  load_elements-Loads [] r rest h = (r, refl, h)
  load_elements-Loads (m ∷ ms) r rest h =
      let (r₁, e₁, h₁) =
        load_machine-Loads m r (elements ms ++ rest)
          (subst (v.Before r) (append_assoc (machine_prims m) (elements ms) rest) h) in
      let (r₂, e₂, h₂) = load_elements-Loads ms r₁ rest h₁ in (r₂, rw (e₁, e₂), h₂)

  load_machines-Loads : (ms : List Machine) → Loads (load_machines b) (machines_prims ms) ms
  unfolding load_machines machines_prims
  load_machines-Loads ms r rest h =
      let (r₁, e₁, h₁) = v.enter_back r machines_class _ h in
      let (r₂, e₂, h₂) = v.count_back r₁ (length ms) _ h₁ in
      let (r₃, e₃, h₃) = load_elements-Loads ms r₂ rest h₂ in (r₃, rw (e₁, e₂, e₃), h₃)

  load_run-Loads : (x : Run) → Loads (load_run b) (run_prims x) x
  unfolding load_run run_prims
  load_run-Loads x r rest h =
      let (r₁, e₁, h₁) = v.enter_back r run_class _ h in
      let (r₂, e₂, h₂) = v.int_back r₁ x.id _ h₁ in
      let (r₃, e₃, h₃) = v.string_back r₂ x.user _ h₂ in
      let (r₄, e₄, h₄) = v.string_back r₃ x.dir _ h₃ in
      let (r₅, e₅, h₅) = v.string_back r₄ x.sim_name _ h₄ in
      let (r₆, e₆, h₆) = v.string_back r₅ x.run_cmd _ h₅ in
      let (r₇, e₇, h₇) = v.string_back r₆ x.xid _ h₆ in
      let (r₈, e₈, h₈) = load_machines-Loads x.machines r₇ rest h₇ in
      (r₈, rw (e₁, e₂, e₃, e₄, e₅, e₆, e₇, e₈), h₈)

  -- A value that is saved, fixed and read back.
  read_one-Loads :
      {A : Type 0} (load : b.Reader → Option (A × b.Reader)) (ps : List Prim) (x : A)
      → Loads load ps x
      → read_one b load (fix_version (get_serial_str b ps)) ≡ some x
  read_one-Loads load ps x loads =
      let fixed =
        ap (λ t. fix_version (t ++ b.body ps)) v.version ∙ fix_version-header (b.body ps) in
      let (r, e, h) = v.reopened ps in
      let (r', e', _) = loads r [] (subst (v.Before r) (sym (append-nil ps)) h) in
      ap (read_one b load) fixed ∙ rw (e, e')

  pub load-save_run :
      (x : Run) → (archive b).load_run (fix_version ((archive b).save_run x)) ≡ some x
  load-save_run x = read_one-Loads (load_run b) (run_prims x) x (load_run-Loads x)

  -- A run, a machine and a text that are saved by a client come back from the server's reader behind
  -- the replacement of the version, with every member that they had.
  pub load-save :
      (x : Run) (m : Machine) (s : Text)
      → ((archive b).load_run (fix_version ((archive b).save_run x)) ≡ some x)
        × ((archive b).load_machine (fix_version ((archive b).save_machine m)) ≡ some m)
        × ((archive b).load_astr (fix_version ((archive b).save_astr s)) ≡ some s)
  load-save x m s = (
    load-save_run x,
    read_one-Loads (load_machine b) (machine_prims m) m (load_machine-Loads m),
    read_one-Loads (load_astr b) (astr_prims s) s (load_astr-Loads s),
  )
