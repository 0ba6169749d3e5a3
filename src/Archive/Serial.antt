-- ===== src/Archive/Serial.antt =====
-- The `serialize` members of machine.h, run.h and net_common.h, and the functions of net_common.h that
-- use them. Boost's text archives are a parameter: a writer of the primitives that are saved, and a
-- reader that is asked for them one by one. `none` is an exception of the archive.
pub mod RoundTrip
use servy.Prelude.{◌>>=◌, ℕ, zero, suc, List, [], ◌∷◌, ◌++◌, Option, none, some, length}
use servy.Prelude.Int.{ℤ}
use servy.Prelude.Text.{Text}
use servy.Machine.{Machine}
use servy.Run.{Run}
use servy.Archive.{Archive}

-- What an archive says about the class of what follows.
pub data Class : Type 0 where
  astr_class machine_class machines_class run_class : Class

-- What `ar & x` comes to: the primitives, the length of a vector, and the beginning of an object.
pub data Prim : Type 0 where
  int : ℤ → Prim
  string : Text → Prim
  count : ℕ → Prim
  enter : Class → Prim

pub record Boost : Type 1 where
  -- the text that text_oarchive begins with, and that of the primitives
  pub header : Text
  pub body : List Prim → Text
  -- text_iarchive
  pub Reader : Type 0
  pub opened : Text → Option Reader
  pub get_int : Reader → Option (ℤ × Reader)
  pub get_string : Reader → Option (Text × Reader)
  pub get_count : Reader → Option (ℕ × Reader)
  pub get_enter : Class → Reader → Option Reader

-- Astr::serialize
unfoldable pub astr_prims : Text → List Prim
astr_prims s = enter astr_class ∷ string s ∷ []

-- machine::serialize
unfoldable pub machine_prims : Machine → List Prim
machine_prims m = enter machine_class ∷ string m.name ∷ int m.size ∷ int m.res ∷ int m.free ∷ []

unfoldable pub elements : List Machine → List Prim
elements [] = []
elements (m ∷ ms) = machine_prims m ++ elements ms

-- A vector of machines.
unfoldable pub machines_prims : List Machine → List Prim
machines_prims ms = enter machines_class ∷ count (length ms) ∷ elements ms

-- run::serialize
unfoldable pub run_prims : Run → List Prim
run_prims r =
    enter run_class
    ∷ int r.id
    ∷ string r.user
    ∷ string r.dir
    ∷ string r.sim_name
    ∷ string r.run_cmd
    ∷ string r.xid
    ∷ machines_prims r.machines

module _ (b : Boost) where
  -- get_serial_str
  abbrev pub get_serial_str : List Prim → Text
  get_serial_str ps = b.header ++ b.body ps

  unfoldable pub load_astr : b.Reader → Option (Text × b.Reader)
  load_astr ar = do ar ← b.get_enter astr_class ar; b.get_string ar

  unfoldable pub load_machine : b.Reader → Option (Machine × b.Reader)
  load_machine ar = do
    ar ← b.get_enter machine_class ar
    (name, ar) ← b.get_string ar
    (size, ar) ← b.get_int ar
    (res, ar) ← b.get_int ar
    (free, ar) ← b.get_int ar
    some (record { name = name; size = size; res = res; free = free }, ar)

  unfoldable pub load_elements : ℕ → b.Reader → Option (List Machine × b.Reader)
  load_elements zero ar = some ([], ar)
  load_elements (suc n) ar = do
    (m, ar) ← load_machine ar
    (ms, ar) ← load_elements n ar
    some (m ∷ ms, ar)

  unfoldable pub load_machines : b.Reader → Option (List Machine × b.Reader)
  load_machines ar = do
    ar ← b.get_enter machines_class ar
    (n, ar) ← b.get_count ar
    load_elements n ar

  unfoldable pub load_run : b.Reader → Option (Run × b.Reader)
  load_run ar = do
    ar ← b.get_enter run_class ar
    (id, ar) ← b.get_int ar
    (user, ar) ← b.get_string ar
    (dir, ar) ← b.get_string ar
    (sim_name, ar) ← b.get_string ar
    (run_cmd, ar) ← b.get_string ar
    (xid, ar) ← b.get_string ar
    (machines, ar) ← load_machines ar
    some (
      record {
        id = id;
        user = user;
        dir = dir;
        sim_name = sim_name;
        run_cmd = run_cmd;
        xid = xid;
        machines = machines;
      },
      ar,
    )

  -- An archive opened on a text, and one value read; what follows is not looked at.
  abbrev pub read_one : {A : Type 0} → (b.Reader → Option (A × b.Reader)) → Text → Option A
  read_one load text = do ar ← b.opened text; (x, _) ← load ar; some x

  -- What the messages carry.
  abbrev pub archive : Archive
  archive = record {
    save_run = λ r. get_serial_str (run_prims r);
    load_run = λ t. read_one load_run t;
    save_machine = λ m. get_serial_str (machine_prims m);
    load_machine = λ t. read_one load_machine t;
    save_astr = λ s. get_serial_str (astr_prims s);
    load_astr = λ t. read_one load_astr t;
  }
