-- ===== src/Tests/Serial.antt =====
-- Archives with a concrete format, and the file between OnMessage and the archive.
use servy.Prelude.{
  ◌>>=◌, ℕ, zero, suc, ◌≡◌, refl, ap, ◌∙◌, false, List, [], ◌∷◌, ◌++◌, Option, some, none, arith,
  length, if◌then◌else◌, ◌==◌,
}
use servy.Prelude.Int.{ℤ, pos, negsuc}
use servy.Prelude.Text.{Text, codes}
use servy.Prelude.Decimal.{show_ℤ, show_ℕ, set_width, fill}
use servy.Run.{xid_of}
use servy.Message.{Message, MsgType, push, to_bytes}
use servy.Archive.{fix_version, after_prefix, replace_first}
use servy.Archive.Serial.{
  Class, astr_class, machine_class, machines_class, run_class, Prim, int, string, count, enter,
  Boost, archive, run_prims, machines_prims, elements, machine_prims,
}
use servy.Archive.Serial.RoundTrip.{IsArchive, load-save}
use servy.Server.{with_scheduler}
use servy.Server.Requests.{sends, ups, IsCarried, received-packed}
use servy.Message.RoundTrip.{packed}
use servy.Server.Update.{update}
use servy.Server.Incoming.{Post, posted, asked_all}
use servy.Server.Serialized.{serialized_requests}
use servy.Server.Files.{File, receive_all, receive_all-stale}
use servy.Message.Strings.{no_nul}
use servy.Tests.Samples.{thor, job, second}
use servy.Tests.Traffic.{server}

-- Each primitive begins with a mark for its kind, a string with its length. No byte is 0.
abbrev class_mark : Class → ℕ
class_mark astr_class = 1
class_mark machine_class = 2
class_mark machines_class = 3
class_mark run_class = 4

abbrev written_prim : Prim → Text
written_prim (int (pos n)) = 1 ∷ suc n ∷ []
written_prim (int (negsuc n)) = 2 ∷ suc n ∷ []
written_prim (string s) = 3 ∷ suc (length s) ∷ s
written_prim (count n) = 4 ∷ suc n ∷ []
written_prim (enter c) = 5 ∷ class_mark c ∷ []

unfoldable written : List Prim → Text
written [] = []
written (p ∷ ps) = written_prim p ++ written ps

abbrev got_int : Text → Option (ℤ × Text)
got_int (k ∷ suc n ∷ r) =
    if k == 1 then some (pos n, r) else if k == 2 then some (negsuc n, r) else none
got_int _ = none

unfoldable cut : ℕ → Text → Option (Text × Text)
cut zero r = some ([], r)
cut (suc n) [] = none
cut (suc n) (c ∷ r) = do (s, rest) ← cut n r; some (c ∷ s, rest)

abbrev got_string : Text → Option (Text × Text)
got_string (k ∷ suc n ∷ r) = if k == 3 then cut n r else none
got_string _ = none

abbrev got_count : Text → Option (ℕ × Text)
got_count (k ∷ suc n ∷ r) = if k == 4 then some (n, r) else none
got_count _ = none

abbrev got_enter : Class → Text → Option Text
got_enter c (k ∷ n ∷ r) = if k == 5 then (if n == class_mark c then some r else none) else none
got_enter c _ = none

abbrev marks : Boost
marks = record {
  header = codes "22 serialization::archive 17";
  body = written;
  Reader = Text;
  opened = λ t. after_prefix (codes "22 serialization::archive 16") t;
  get_int = got_int;
  get_string = got_string;
  get_count = got_count;
  get_enter = got_enter;
}

cut-append : (s r : Text) → cut (length s) (s ++ r) ≡ some (s, r)
unfolding cut
cut-append [] r = refl
cut-append (c ∷ s) r = rw (cut-append s r)

got_int-written : (n : ℤ) (r : Text) → got_int (written_prim (int n) ++ r) ≡ some (n, r)
got_int-written (pos n) r = refl
got_int-written (negsuc n) r = refl

got_enter-written : (c : Class) (r : Text) → got_enter c (written_prim (enter c) ++ r) ≡ some r
got_enter-written astr_class r = refl
got_enter-written machine_class r = refl
got_enter-written machines_class r = refl
got_enter-written run_class r = refl

marks-IsArchive : IsArchive marks
unfolding written after_prefix
marks-IsArchive = record {
  Before = λ r ps. r ≡ written ps;
  version = refl;
  reopened = λ ps. (written ps, refl, refl);
  int_back = λ r n ps h. (written ps, ap got_int h ∙ got_int-written n (written ps), refl);
  string_back = λ r s ps h. (written ps, rw h (cut-append s (written ps)), refl);
  count_back = λ r n ps h. (written ps, rw h refl, refl);
  enter_back =
      λ r c ps h. (written ps, ap (got_enter c) h ∙ got_enter-written c (written ps), refl);
}

load-save_example :
    ((archive marks).load_run (fix_version ((archive marks).save_run job)) ≡ some job)
    × ((archive marks).load_machine (fix_version ((archive marks).save_machine thor)) ≡ some thor)
    × ((archive marks).load_astr (fix_version ((archive marks).save_astr (codes "hi")))
        ≡ some (codes "hi"))
load-save_example = load-save marks marks-IsArchive job thor (codes "hi")

-- Client 1 sends the run, and client 3 moves it up.
abbrev two_posts : List Post
two_posts =
    record { client = 1; request = sends; run = job }
    ∷ record { client = 3; request = ups; run = job }
    ∷ []

job-IsCarried : IsCarried ((archive marks).save_run job)
unfolding no_nul xid_of set_width fill show_ℤ show_ℕ written run_prims machines_prims elements
    machine_prims
job-IsCarried = record { plain = refl; short = omega arith }

serialized_requests_example :
    (posted (archive marks) two_posts >>= update (archive marks) 2 server)
    ≡ (with_scheduler server (asked_all server.scheduler two_posts) >>= λ t. some (t, []))
serialized_requests_example =
    serialized_requests marks marks-IsArchive 2 server two_posts
      (job-IsCarried, (job-IsCarried, tt)) (omega arith)

-- A user who puts the words that are replaced into a text, with an archive of another version before
-- it: the text is changed.
corrupted : fix_version (codes "archive 16 archive 17 files") ≡ codes "archive 16 archive 16 files"
unfolding fix_version replace_first after_prefix
corrupted = refl

-- A file that cannot be written and holds the archive of `job`; the message carries that of
-- `second`.
abbrev locked : File
locked = record { content = some (fix_version ((archive marks).save_run job)); writable = false }

second-IsCarried : IsCarried ((archive marks).save_run second)
unfolding no_nul xid_of set_width fill show_ℤ show_ℕ written run_prims machines_prims elements
    machine_prims
second-IsCarried = record { plain = refl; short = omega arith }

abbrev removal : Message
removal = packed (package.servy.Message.new MsgType.remove_run) ((archive marks).save_run second) 2

receive_all-stale_example :
    receive_all (λ t. (archive marks).load_run t) locked (removal ∷ []) ≡ some (job ∷ [])
receive_all-stale_example =
    receive_all-stale (λ t. (archive marks).load_run t) locked
      (fix_version ((archive marks).save_run job)) job (removal ∷ []) refl refl
      (load-save marks marks-IsArchive job thor []).0
      (
        (
          fix_version ((archive marks).save_run second),
          received-packed MsgType.remove_run ((archive marks).save_run second) second-IsCarried,
        ),
        tt,
      )
