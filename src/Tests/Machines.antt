-- ===== src/Tests/Machines.antt =====
-- Lists of machines as texts (machine.h).
use servy.Prelude.{◌-◌, ◌^◌, All, ◌≡◌, refl, [], ◌∷◌, map, some, none, arith}
use servy.Prelude.Text.{codes}
use servy.Prelude.Decimal.{value}
use servy.Machine.{Machine}
use servy.Status.{get_machine_str}
use servy.MachineList.{
  split, blank_colons, skip_spaces, take_word, read_word, digits, read_number, read_int, machine_of,
  machines_of, get_machines, fget_machines,
}
use servy.MachineList.Bounds.{IsRead, get_machines-IsRead}
use servy.Prelude.Int.{pos}
use servy.MachineList.RoundTrip.{IsNamed, get_machines-get_machine_str}
use servy.Tests.Samples.{thor, c22, cluster}

thor-IsNamed : IsNamed thor
thor-IsNamed = record {
  first = b't';
  others = codes "hor";
  named = refl;
  plain =
      ((refl, refl, refl), ((refl, refl, refl), ((refl, refl, refl), ((refl, refl, refl), tt))));
  cores = 40;
  sized = refl;
  small = omega arith;
}

c22-IsNamed : IsNamed c22
c22-IsNamed = record {
  first = b'c';
  others = codes "22";
  named = refl;
  plain = ((refl, refl, refl), ((refl, refl, refl), ((refl, refl, refl), tt)));
  cores = 60;
  sized = refl;
  small = omega arith;
}

get_machines-get_machine_str_example :
    get_machines (get_machine_str cluster)
    ≡ some (map (λ m. package.servy.Machine.new m.name m.size) cluster)
get_machines-get_machine_str_example =
    get_machines-get_machine_str cluster (thor-IsNamed, (c22-IsNamed, tt))

-- The first two machines of cluster_machines.dat.
shipped_list : fget_machines (codes "thor:40,c22:60") ≡ some (thor ∷ c22 ∷ [])
unfolding fget_machines get_machines machines_of machine_of split blank_colons read_word skip_spaces
    take_word read_int read_number digits value
shipped_list = refl

no_size : get_machines (codes "thor") ≡ none
unfolding get_machines machines_of machine_of split blank_colons read_word skip_spaces take_word
    read_int
no_size = refl

-- A number that is too great is read as the greatest `int`.
too_great :
    get_machines (codes "thor:3000000000")
    ≡ some (package.servy.Machine.new (codes "thor") (pos (2 ^ 31 - 1)) ∷ [])
unfolding get_machines machines_of machine_of split blank_colons read_word skip_spaces take_word
    read_int read_number digits value
too_great = refl

get_machines-IsRead_example :
    All IsRead (package.servy.Machine.new (codes "thor") (pos (2 ^ 31 - 1)) ∷ [])
get_machines-IsRead_example =
    get_machines-IsRead (codes "thor:3000000000")
      (package.servy.Machine.new (codes "thor") (pos (2 ^ 31 - 1)) ∷ []) too_great
