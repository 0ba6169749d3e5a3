-- ===== src/Tests/Samples.antt =====
-- Machines and runs that the tests share.
use servy.Prelude.{List, [], ◌∷◌}
use servy.Prelude.Int.{pos}
use servy.Prelude.Text.{codes}
use servy.Machine.{Machine}
use servy.Run.{Run}

abbrev pub thor : Machine
thor = package.servy.Machine.new (codes "thor") (pos 40)

abbrev pub c22 : Machine
c22 = package.servy.Machine.new (codes "c22") (pos 60)

abbrev pub cluster : List Machine
cluster = thor ∷ c22 ∷ []

-- 30 cores of thor
abbrev pub request : List Machine
request = package.servy.Machine.new (codes "thor") (pos 30) ∷ []

abbrev pub job : Run
job =
    package.servy.Run.new (codes "ann") (pos 7) (codes "/tmp") (codes "a.sim") (codes "go") request

abbrev pub second : Run
second =
    package.servy.Run.new (codes "bob") (pos 8) (codes "/tmp") (codes "b.sim") (codes "go") request
