-- ===== src/Subprocess/Clone.antt =====
-- popen::clone and the constructor that calls it (src/subprocess/popen.cpp), seen from the parent: the
-- streams are opened, the child is cloned and runs clone_handler on a copy of the table of descriptors,
-- and the parent keeps its ends of the streams. The two mutexes are in Subprocess/Clone/Threads.
pub mod Children
pub mod Ends
pub mod Threads
pub mod Exclusion
use liblinuxpp.Prelude.{
  ℕ, Bool, true, false, List, [], ◌∷◌, Option, none, some, ◌==◌, if◌then◌else◌,
}
use liblinuxpp.Prelude.Int.{ℤ, pos, negsuc, eqb_ℤ}
use liblinuxpp.Descriptor.{
  IntDescriptor, UniqueFd, invalid_value, of_value, manage, unset, move_assign, unique_reset,
  unique_destroy,
}
use liblinuxpp.Subprocess.Status.{unknown}
use liblinuxpp.Subprocess.Popen.{Popen}
use liblinuxpp.Subprocess.Argv.{Argv, copy, cmdline}
use liblinuxpp.Subprocess.Streams.{
  Kernel, StreamDescriptors, no_descriptors, is_open, handle_parent_stream,
}
use liblinuxpp.Subprocess.Streams.Handler.{Answers, clone_handler}

-- What execve is given: the path, the arguments and an empty environment.
pub record Launch : Type 0 where
  pub path : List ℕ
  pub arguments : List (Option (List ℕ))
  pub environment : List (Option (List ℕ))

-- What the call of clone returns with errno, what the calls of the child answer, and whether a signal
-- ends the child before it has stored an errno value or called execve.
pub record CloneAnswers : Type 0 where
  pub ret : ℤ
  pub errno : ℕ
  pub killed : Bool
  pub child : Answers

pub data Error : Type 0 where
  open_failed : ℕ → Error
  clone_failed : ℕ → Error
  execution_failed : ℕ → Error

pub data Result {ℓ} (A : Type ℓ) : Type ℓ where
  ok : A → Result A
  err : Error → Result A

-- popen::popen().
abbrev pub no_child : Popen
no_child = record {
  child_pid = unset;
  stdin_stream = manage invalid_value;
  stdout_stream = manage invalid_value;
  stderr_stream = manage invalid_value;
  child_status = unknown;
}

-- The parent: its descriptors, and the children that were started, that were waited for and that
-- execute a program.
pub record Parent (Table : Type 0) : Type 0 where
  pub table : Table
  pub started : List ℤ
  pub waited : List ℤ
  pub executing : List (ℤ × Launch)

-- What popen_execve is given.
unfoldable pub launch : List ℕ → Argv → Launch
unfolding copy cmdline
launch executable argv = record {
  path = copy executable;
  arguments = cmdline executable argv;
  environment = none ∷ [];
}

-- How clone_handler ends in the child: in the program, by returning after it has stored an errno
-- value, or by a signal before either.
pub data ChildEnd : Type 0 where
  executes : ChildEnd
  stores : ℕ → ChildEnd
  dies : ChildEnd

abbrev pub returned_end : Option (ℕ × ℕ) → ChildEnd
returned_end none = executes
returned_end (some stored) = stores stored.1

abbrev pub child_end : Bool → Option (ℕ × ℕ) → ChildEnd
child_end killed handled = if killed then dies else returned_end handled

-- child_status once clone has returned: what clone_handler has stored, or the 0 that it began with.
abbrev pub exec_status : ChildEnd → ℕ
exec_status executes = 0
exec_status (stores errno) = errno
exec_status dies = 0

-- The children that execute a program, with one more if clone_handler ended in it.
abbrev pub execute : ℤ → Launch → ChildEnd → List (ℤ × Launch) → List (ℤ × Launch)
execute pid l executes executing = (pid, l) ∷ executing
execute pid l (stores errno) executing = executing
execute pid l dies executing = executing

module _ (k : Kernel) where
  -- stream::open of any kind of stream; it may throw.
  abbrev pub Opener : Type 0
  Opener = k.Table → k.Table × Result StreamDescriptors

  abbrev pub open_stream : Option Opener → Opener
  open_stream none t = (t, ok no_descriptors)
  open_stream (some opener) t = opener t

  -- The opening of the three streams, one after the other.
  unfoldable pub open_streams :
      Option Opener
      → Option Opener
      → Option Opener
      → k.Table
      → k.Table × Result (StreamDescriptors × (StreamDescriptors × StreamDescriptors))
  open_streams sin sout serr t =
      let (t1, i) = open_stream sin t in
      elim i [
        | err e ↦ (t1, err e)
        | ok din ↦
            let (t2, o) = open_stream sout t1 in
            elim o [
              | err e ↦ (t2, err e)
              | ok dout ↦
                  let (t3, r) = open_stream serr t2 in
                  elim r [ err e ↦ (t3, err e) | ok derr ↦ (t3, ok (din, (dout, derr))) ]
            ]
      ]

  abbrev pub close_all : List ℤ → k.Table → k.Table
  close_all [] t = t
  close_all (fd ∷ fds) t = k.close (close_all fds t) fd

  -- One of the three tests after the child has started: the parent's end is handed to the member.
  unfoldable pub keep_stream : StreamDescriptors → ℤ → ℤ → UniqueFd × k.Table → UniqueFd × k.Table
  unfolding is_open handle_parent_stream unique_reset
  keep_stream d parent_fd child_fd (member, t) =
      if is_open d
      then (let (u, kept) = handle_parent_stream k t parent_fd child_fd in
          let (reset, closed) = unique_reset member kept [] in (reset, close_all closed u))
      else (member, t)

  unfoldable pub keep_streams :
      StreamDescriptors → StreamDescriptors → StreamDescriptors → Popen × k.Table → Popen × k.Table
  unfolding keep_stream
  keep_streams din dout derr (p, t) =
      let (sin, t1) = keep_stream din din.write_fd din.read_fd (p.stdin_stream, t) in
      let (sout, t2) = keep_stream dout dout.read_fd dout.write_fd (p.stdout_stream, t1) in
      let (serr, t3) = keep_stream derr derr.read_fd derr.write_fd (p.stderr_stream, t2) in
      (record p { stdin_stream = sin; stdout_stream = sout; stderr_stream = serr }, t3)

  -- clone from the call of ::clone on. The child that executes nothing is waited for; what waitid
  -- answers is not looked at.
  unfoldable pub clone_opened :
      List ℕ
      → Argv
      → CloneAnswers
      → StreamDescriptors × (StreamDescriptors × StreamDescriptors)
      → Popen
      → Parent k.Table
      → Result ℤ × (Popen × Parent k.Table)
  unfolding clone_handler keep_streams launch
  clone_opened executable argv a (din, (dout, derr)) this parent =
      let ending = child_end a.killed (clone_handler k parent.table din dout derr a.child).1 in
      let running = record parent {
        started = a.ret ∷ parent.started;
        executing = execute a.ret (launch executable argv) ending parent.executing;
      } in
      if eqb_ℤ a.ret (negsuc 0)
      then (err (clone_failed a.errno), (this, parent))
      else (if exec_status ending == 0
          then (let (q, t) = keep_streams din dout derr (this, parent.table) in
              (ok a.ret, (q, record running { table = t })))
          else (
            err (execution_failed (exec_status ending)),
            (this, record running { waited = a.ret ∷ parent.waited }),
          ))

  unfoldable pub clone :
      List ℕ
      → Argv
      → Option Opener
      → Option Opener
      → Option Opener
      → CloneAnswers
      → Popen
      → Parent k.Table
      → Result ℤ × (Popen × Parent k.Table)
  unfolding open_streams clone_opened
  clone executable argv sin sout serr a this parent =
      let (t, r) = open_streams sin sout serr parent.table in
      let opened = record parent { table = t } in
      elim r [
        | err e ↦ (err e, (this, opened))
        | ok ds ↦ clone_opened executable argv a ds this opened
      ]

  -- The members of an object that is being constructed, destroyed where the constructor throws.
  unfoldable pub destroy_members : Popen → k.Table → k.Table
  unfolding unique_destroy
  destroy_members p t =
      close_all
        (unique_destroy p.stdin_stream
          (unique_destroy p.stdout_stream (unique_destroy p.stderr_stream [])))
        t

  -- The constructor.
  unfoldable pub construct :
      List ℕ
      → Argv
      → Option Opener
      → Option Opener
      → Option Opener
      → CloneAnswers
      → Parent k.Table
      → Result Popen × Parent k.Table
  unfolding clone destroy_members move_assign
  construct executable argv sin sout serr a parent =
      let (r, (p, after)) = clone executable argv sin sout serr a no_child parent in
      elim r [
        | ok pid ↦ (ok (record p { child_pid = (move_assign p.child_pid (of_value pid)).0 }), after)
        | err e ↦ (err e, record after { table = destroy_members p after.table })
      ]
