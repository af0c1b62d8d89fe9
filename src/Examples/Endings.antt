-- ===== src/Examples/Endings.antt =====
-- A host whose context is done behind every sleep, and the operations that end on it.
use lxcri.Base.{ℕ, ◌≡◌, refl, Bool, true, false, ok, [], ◌∷◌, ◌++◌, arith}
use lxcri.Base.Host.{Host, History, Call, sleep}
use lxcri.Base.Free.{bad_of}
use lxcri.Base.Int.{pos}
use lxcri.Runtime.Lifecycle.{start, kill, delete}
use lxcri.Runtime.Ends.{is_abnormal, is_out_of_fuel, IsReal, operations_end}
use lxcri.Examples.{sample, some_container, some_runtime, some_spec, some_linux}
use lxcri.Create.Instance.{Encoders, create}
use lxcri.Create.Total.{create_returns}
use lxcri.Container.{Container}

abbrev is_sleep : Call → Bool
is_sleep (sleep ms) = true
is_sleep _ = false

abbrev asleep : Bool → History → Bool
asleep last [] = last
asleep last (c ∷ w) = asleep (is_sleep c) w

-- Its sleeps end every wait.
abbrev sleeping : Host
sleeping = record sample { is_done = asleep false }

asleep-append : (last : Bool) (ms : ℕ) (w : History) → asleep last (w ++ (sleep ms ∷ [])) ≡ true
asleep-append last ms [] = refl
asleep-append last ms (c ∷ w) = asleep-append (is_sleep c) ms w

sleeping-IsReal : IsReal sleeping
sleeping-IsReal = record {
  reply = λ w c. refl;
  stat = λ w path. refl;
  read_file = λ w path. refl;
  read_dir = λ w path. refl;
  walk = λ w path. (refl, tt);
}

operations_end_example :
    (bad_of is_out_of_fuel (start sleeping some_container 2 []).0 ≡ false)
    × (bad_of is_out_of_fuel (kill sleeping "/sys/fs/cgroup" some_container (pos 9) 2 []).0 ≡ false)
    × (bad_of is_out_of_fuel (delete sleeping "/sys/fs/cgroup" some_container true 2 []).0 ≡ false)
operations_end_example =
    operations_end sleeping sleeping-IsReal 1 2 (omega arith) (λ ms w. asleep-append false ms w)
      "/sys/fs/cgroup" some_container (pos 9) true []

abbrev plain_encoders : Encoders
plain_encoders = record {
  of_spec = λ spec. ok "{}";
  of_hooks = λ hooks. ok "{}";
  of_state = λ state. ok "{}";
  of_container = λ c. ok "{}";
}

abbrev with_linux : Container
with_linux = record some_container { spec = some_spec [] }

create_returns_example :
    bad_of is_abnormal
      (create sleeping plain_encoders
        (ok "x86_64")
        "/sys/fs/cgroup"
        true
        some_runtime
        with_linux
        2
        []).0
    ≡ false
create_returns_example =
    create_returns sleeping sleeping-IsReal 1 2 (omega arith) (λ ms w. asleep-append false ms w)
      plain_encoders
      (record {
        of_spec = λ spec. refl;
        of_hooks = λ hooks. refl;
        of_state = λ state. refl;
        of_container = λ c. refl;
      })
      (ok "x86_64") refl "/sys/fs/cgroup" true some_runtime with_linux (some_linux []) [] refl
