-- ===== src/Examples/Clone.antt =====
-- Examples of popen's constructor (src/subprocess/popen.cpp), of signal_mutex (src/signal_mutex.cpp) and of
-- monotonic_timerfd (src/monotonic_timerfd.cpp).
use liblinuxpp.Prelude.{
  ◌-◌, ◌≡◌, refl, Bool, true, false, not, ◌&&◌, ◌||◌, [], ◌∷◌, Option, none, some, ltb, ◌==◌,
  if◌then◌else◌, arith,
}
use liblinuxpp.Prelude.Int.{pos}
use liblinuxpp.Descriptor.{manage}
use liblinuxpp.Subprocess.Argv.{of_arguments}
use liblinuxpp.Subprocess.Streams.{pipe_stream, no_descriptors}
use liblinuxpp.Subprocess.Clone.{CloneAnswers, ok, Parent, Opener, open_streams, construct}
use liblinuxpp.Subprocess.Clone.Children.{Accounted, construct-Accounted}
use liblinuxpp.Subprocess.Clone.Ends.{Kept, construct-Kept}
use liblinuxpp.Signals
use liblinuxpp.Signals.{SignalSet, How, sig_block, sig_setmask, SignalMutex, of_set}
use liblinuxpp.Signals.Guards.{IsKernel, entered, guarded, some_holds, guarded_restores}
use liblinuxpp.Timer.{Timer, set_oneshot_at}
use liblinuxpp.Timer.Oneshot.{IsArmed, set_oneshot_at-IsArmed}
use liblinuxpp.Examples.Streams
use liblinuxpp.Examples.Sockets

abbrev executed : CloneAnswers
executed = record {
  ret = pos 77;
  errno = 0;
  killed = false;
  child = record {
    listing = [];
    dirfd = some (pos 9);
    proc_error = 0;
    rlimit_error = 0;
    rlim_cur = none;
    sigmask_error = 0;
    exec_error = 0;
  };
}

abbrev parent : Parent Streams.kernel.Table
parent = record { table = Streams.sevens; started = []; waited = []; executing = [] }

-- A pipe for the standard input, and nothing for the other two.
abbrev piped : Option (Opener Streams.kernel)
piped = some (λ t. (t, ok (pipe_stream (pos 5) (pos 6))))

construct-Accounted_example : Accounted false (108 ∷ []) ((45 ∷ []) ∷ []) parent (
    construct Streams.kernel
      (108 ∷ [])
      (of_arguments ((45 ∷ []) ∷ []))
      piped
      none
      none
      executed
      parent)
construct-Accounted_example =
    construct-Accounted Streams.kernel (108 ∷ []) ((45 ∷ []) ∷ []) executed piped none none parent

opened_lem :
    open_streams Streams.kernel piped none none Streams.sevens
    ≡ (Streams.sevens, ok (pipe_stream (pos 5) (pos 6), (no_descriptors, no_descriptors)))
unfolding open_streams
opened_lem = refl

construct-Kept_example :
    let (r, after) =
      construct Streams.kernel (108 ∷ []) (of_arguments []) piped none none executed parent in
    Kept Streams.kernel Streams.kernel-IsKernel
      (λ p. p)
      (pipe_stream (pos 5) (pos 6))
      no_descriptors
      no_descriptors
      Streams.sevens
      r
      after.table
construct-Kept_example =
    construct-Kept Streams.kernel Streams.kernel-IsKernel (108 ∷ []) (of_arguments []) executed
      (pipe_stream (pos 5) (pos 6)) no_descriptors no_descriptors piped none none Streams.sevens
      parent opened_lem

-- SIGKILL and SIGSTOP cannot be blocked.
abbrev blockable : SignalSet
blockable i = not (i == 9 || i == 19)

-- A thread is a mask of signals that can be blocked, as the set of which it is the blockable part.
abbrev mask : SignalSet → SignalSet
mask t i = t i && blockable i

abbrev sigmask : SignalSet → How → SignalSet → SignalSet × Signals.Answer
sigmask t sig_block set = ((λ i. t i || set i), record { ret = 0; errno = 0; old_set = mask t })
sigmask t sig_setmask set = (set, record { ret = 0; errno = 0; old_set = mask t })

abbrev threads : Signals.Kernel
threads = record { Thread = SignalSet; sigmask = sigmask }

joined : (a b c : Bool) → ((a || b) && c) ≡ ((a && c) || (b && c))
joined a b c = ground arith

masked : (a c : Bool) → (a && c) ≡ true → c ≡ true
masked a c e = ground arith

threads-IsKernel : IsKernel threads mask blockable
threads-IsKernel = record {
  block_succeeds = λ t set. refl;
  block_stores = λ t set i. refl;
  block_masks = λ t set i. joined (t i) (set i) (blockable i);
  set_masks = λ t set i. refl;
  masked_blockable = λ t i. masked (t i) (blockable i);
}

abbrev interrupts : SignalMutex
interrupts = of_set (λ _. false) (λ i. i == 2)

abbrev terminations : SignalMutex
terminations = of_set (λ _. false) (λ i. i == 15)

abbrev nothing : SignalSet
nothing i = false

guarded_restores_example :
    let scopes = interrupts ∷ terminations ∷ [] in
    (mask (guarded threads scopes (λ t. t) nothing) 2 ≡ mask nothing 2)
    × (mask (entered threads scopes nothing) 2
        ≡ (mask nothing 2 || (some_holds scopes 2 && blockable 2)))
    × (guarded threads scopes (λ t. t) nothing
        ≡ guarded threads scopes (λ _. entered threads scopes nothing) nothing)
guarded_restores_example =
    guarded_restores threads mask blockable threads-IsKernel interrupts (terminations ∷ []) (λ t. t)
      nothing 2

abbrev timer : Timer
timer = record { timer_fd = manage (pos 4) }

set_oneshot_at-IsArmed_example :
    IsArmed timer
      (if ltb 100 2500000100 then 2500000100 - 100 else 1)
      []
      (set_oneshot_at Sockets.address_in_use timer 100 2500000100 []).1
set_oneshot_at-IsArmed_example =
    set_oneshot_at-IsArmed Sockets.address_in_use timer 100 2500000100 []
