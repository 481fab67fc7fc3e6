-- ===== src/CliController/Prompt.antt =====
-- controllers/cli-controller/src/controller.cpp: the controller reads a line exactly when no command
-- waits for its acknowledgement.
use yonderboy.Prelude.{
  Bool, true, false, not, ◌&&◌, Option, none, some, List, [], ◌∷◌, ◌≡◌, refl, sym, subst, ◌∙◌,
  arith, Bytes, inl, inr, Bool-cases, Option-cases, ◌==◌, bytes_eq,
}
use yonderboy.Macros.{
  PackageType, acknowledgement, command, status_change, connection_management, unknown, request,
  response,
}
use yonderboy.Package.{Package}
use yonderboy.AbstractHost.{Host, get_next_package_id}
use yonderboy.Prelude.Text.{codes}
use yonderboy.CommandParser.{PoptOption, CommandNode}
use yonderboy.CommandParser.Reading.{PoptAnswer}
use yonderboy.CliController.{
  AnyParser, add_sources, add_entry, add_entries, Controller, start_readline, stop_readline, quit,
  send_and_wait, send_command, handle_acknowledgement, handle_package, handle_typed, handle_words,
  construct_any, store_parser, handle_line, socket_closed, retrieve_command_parser, parse_spec_file,
  new_controller, blank_controller, greet, SpecEntry,
}

-- The watcher is there, and as long as the program runs it reads exactly when it does not wait.
pub record IsPrompting (c : Controller) : Type 0 where
  pub watched : c.watching ≡ true
  pub prompts : c.running ≡ true → c.reading ≡ not c.waiting_for_ack

-- What happens to a controller: readline has a line, a package comes, or the server is gone. A step
-- that faults leads nowhere.
pub data Event (c : Controller) : Controller → Type 0 where
  line_typed :
      {d : Controller} (popt : List PoptOption → List Bytes → PoptAnswer)
      (cut : Bytes → Option (List Bytes)) (line : Option Bytes)
      → c.reading ≡ true
      → handle_line popt cut line c ≡ some d
      → Event c d
  package_received : {d : Controller} (p : Package) → handle_package p c ≡ some d → Event c d
  closed : {d : Controller} → socket_closed c ≡ some d → Event c d

pub data Events (c : Controller) : Controller → Type 0 where
  start : Events c c
  later : {d e : Controller} → Events c d → Event d e → Events c e

start_watched :
    (c : Controller) → c.watching ≡ true → start_readline c ≡ some (record c { reading = true })
unfolding start_readline
start_watched c h = rw (start_readline, h) refl

stop_watched :
    (c : Controller) → c.watching ≡ true → stop_readline c ≡ some (record c { reading = false })
unfolding stop_readline
stop_watched c h = rw (stop_readline, h) refl

quit_watched :
    (c : Controller)
    → c.watching ≡ true
    → quit c ≡ some (record c { reading = false; running = false })
unfolding quit
quit_watched c h = rw (quit, stop_watched c h) refl

quit-IsPrompting : (c d : Controller) → IsPrompting c → quit c ≡ some d → IsPrompting d
quit-IsPrompting c d h e =
    let same : record c { reading = false; running = false } ≡ d =
      ground (arith, quit_watched c h.watched) in
    subst IsPrompting same (record { watched = h.watched; prompts = λ r. absurd (ground arith) })

acknowledged-IsPrompting :
    (p : Package) (c d : Controller)
    → IsPrompting c
    → handle_acknowledgement p c ≡ some d
    → IsPrompting d
unfolding handle_acknowledgement
acknowledged-IsPrompting p c d h e =
    elim (Bool-cases (c.waiting_for_ack && p.id == c.last_send_package_id)) [
      | inl b ↦
          let same : record c { waiting_for_ack = false; reading = true } ≡ d =
            ground (arith, start_watched (record c { waiting_for_ack = false }) h.watched) in
          subst IsPrompting same (record { watched = h.watched; prompts = λ r. refl })
      | inr b ↦ let same : c ≡ d = ground arith in subst IsPrompting same h
    ]

typed-IsPrompting :
    (t : PackageType) (p : Package) (c d : Controller)
    → IsPrompting c
    → handle_typed t p c ≡ some d
    → IsPrompting d
unfolding handle_typed
typed-IsPrompting command p c d h e = absurd (ground arith)
typed-IsPrompting acknowledgement p c d h e = acknowledged-IsPrompting p c d h e
typed-IsPrompting status_change p c d h e =
    let same : c ≡ d = ground arith in subst IsPrompting same h
typed-IsPrompting connection_management p c d h e =
    let same : c ≡ d = ground arith in subst IsPrompting same h
typed-IsPrompting unknown p c d h e = let same : c ≡ d = ground arith in subst IsPrompting same h
typed-IsPrompting request p c d h e = let same : c ≡ d = ground arith in subst IsPrompting same h
typed-IsPrompting response p c d h e = let same : c ≡ d = ground arith in subst IsPrompting same h

send_command_watched :
    (p : Package) (c : Controller)
    → c.watching ≡ true
    → send_command (some p) c ≡ some (send_and_wait p (record c { reading = false }))
unfolding send_command
send_command_watched p c h = rw (send_command, stop_watched c h) refl

send_command-IsPrompting :
    (made : Option Package) (c d : Controller)
    → IsPrompting c
    → send_command made c ≡ some d
    → IsPrompting d
send_command-IsPrompting none c d h e =
    let same : c ≡ d = unfold send_command in ground arith in subst IsPrompting same h
send_command-IsPrompting (some p) c d h e =
    let same : send_and_wait p (record c { reading = false }) ≡ d =
      ground (arith, send_command_watched p c h.watched) in
    subst IsPrompting same (record {
      watched = unfold send_and_wait in h.watched;
      prompts = unfold send_and_wait in λ r. refl;
    })

words_found :
    (popt : List PoptOption → List Bytes → PoptAnswer) (word : Bytes) (words : List Bytes)
    (c : Controller) (p : AnyParser)
    → retrieve_command_parser word c ≡ some p
    → handle_words popt (some (word ∷ words)) c ≡ (
        let (id, host) = get_next_package_id c.host in
        let (made, q) = construct_any popt (word ∷ words) id p in
        send_command made (record c { host = host; commands = store_parser word q c.commands }))
unfolding handle_words
words_found popt word words c p f = rw (handle_words, f) refl

words-IsPrompting :
    (popt : List PoptOption → List Bytes → PoptAnswer) (words : Option (List Bytes))
    (c d : Controller)
    → IsPrompting c
    → handle_words popt words c ≡ some d
    → IsPrompting d
unfolding handle_words
words-IsPrompting popt none c d h e = let same : c ≡ d = ground arith in subst IsPrompting same h
words-IsPrompting popt (some []) c d h e =
    let same : c ≡ d = ground arith in subst IsPrompting same h
words-IsPrompting popt (some (word ∷ words)) c d h e =
    elim (Option-cases (retrieve_command_parser word c)) [
      | inl f ↦ let same : c ≡ d = ground arith in subst IsPrompting same h
      | inr (p, f) ↦
          let (id, host) = get_next_package_id c.host in
          let (made, q) = construct_any popt (word ∷ words) id p in
          send_command-IsPrompting made
            (record c { host = host; commands = store_parser word q c.commands }) d
            (record { watched = h.watched; prompts = h.prompts })
            (sym (words_found popt word words c p f) ∙ e)
    ]

line-IsPrompting :
    (popt : List PoptOption → List Bytes → PoptAnswer) (cut : Bytes → Option (List Bytes))
    (line : Option Bytes) (c d : Controller)
    → IsPrompting c
    → handle_line popt cut line c ≡ some d
    → IsPrompting d
unfolding handle_line
line-IsPrompting popt cut none c d h e = quit-IsPrompting c d h e
line-IsPrompting popt cut (some []) c d h e =
    let same : c ≡ d = ground arith in subst IsPrompting same h
line-IsPrompting popt cut (some (x ∷ line)) c d h e =
    words-IsPrompting popt (cut (x ∷ line)) c d h e

Event-IsPrompting : {c d : Controller} → Event c d → IsPrompting c → IsPrompting d
unfolding handle_package socket_closed
Event-IsPrompting {c} {d} (line_typed popt cut line r e) h = line-IsPrompting popt cut line c d h e
Event-IsPrompting {c} {d} (package_received p e) h = typed-IsPrompting p.type p c d h e
Event-IsPrompting {c} {d} (closed e) h = quit-IsPrompting c d h e

sources-reading :
    (name : Bytes) (node : CommandNode) (sources : List Bytes) (c : Controller)
    → (add_sources name node sources c).reading ≡ c.reading
unfolding add_sources
sources-reading name node [] c = refl
sources-reading name node (source ∷ sources) c =
    elim (Bool-cases (bytes_eq source (codes "controller"))) [
      | inl e ↦ sources-reading name node sources _ ∙ rw e refl
      | inr e ↦ sources-reading name node sources _ ∙ rw e refl
    ]

entry-reading :
    (name : Option Bytes) (sources : Option (List Bytes)) (node : CommandNode) (c : Controller)
    → (add_entry name sources node c).reading ≡ c.reading
unfolding add_entry
entry-reading none sources node c = refl
entry-reading (some name) none node c = refl
entry-reading (some name) (some sources) node c = sources-reading name node sources c

entries-reading :
    (entries : List SpecEntry) (c : Controller) → (add_entries entries c).reading ≡ c.reading
unfolding add_entries
entries-reading [] c = refl
entries-reading (e ∷ entries) c =
    entries-reading entries _ ∙ entry-reading e.command e.source e.node c

greet-IsPrompting :
    (name version : Bytes) (c : Controller) → c.reading ≡ false → IsPrompting (greet name version c)
unfolding greet send_and_wait
greet-IsPrompting name version c h = record { watched = refl; prompts = λ r. h }

made-IsPrompting :
    (host : Host) (stati : Bool) (entries : List SpecEntry) (name version : Bytes) (c : Controller)
    → new_controller host stati (some entries) name version ≡ some c
    → IsPrompting c
unfolding new_controller parse_spec_file
made-IsPrompting host stati entries name version c e =
    let same : greet name version (add_entries entries (blank_controller host stati)) ≡ c =
      ground arith in
    subst IsPrompting same (
      greet-IsPrompting name version (add_entries entries (blank_controller host stati))
        (entries-reading entries (blank_controller host stati)))

-- From its greeting on, whatever lines are typed and whatever packages come, a controller that
-- could read its specification reads a line exactly when nothing that it sent waits for its
-- acknowledgement, as long as it runs.
pub Events-IsPrompting :
    (host : Host) (stati : Bool) (entries : List SpecEntry) (name version : Bytes)
    {c d : Controller}
    → new_controller host stati (some entries) name version ≡ some c
    → Events c d
    → IsPrompting d
Events-IsPrompting host stati entries name version {c} e start =
    made-IsPrompting host stati entries name version c e
Events-IsPrompting host stati entries name version e (later r s) =
    Event-IsPrompting s (Events-IsPrompting host stati entries name version e r)
