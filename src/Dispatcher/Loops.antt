-- ===== src/Dispatcher/Loops.antt =====
-- The loop of a reader thread in src/subscription_thread_dispatcher.cpp, over the stream that it reads,
-- while events arrive and the dispatcher may close the stream. A turn of the thread is one `read` with
-- the callback that follows; audio and video readers run the same loop.
pub mod Ending
pub mod Hearing
use client_sdk_cpp.Prelude.{Bool, true, false, List, [], ◌∷◌, ◌++◌, if◌then◌else◌}
use client_sdk_cpp.MediaStream.{
  MediaStream, Read, waiting, delivered, ended, FfiEvent, read, close, on_ffi_event,
}

-- How the callback ends. Another exception than a standard one ends the thread.
pub data CallbackEnd : Type 0 where
  returned standard_exception other_exception : CallbackEnd

abbrev pub goes_on : CallbackEnd → Bool
goes_on returned = true
goes_on standard_exception = true
goes_on other_exception = false

-- `heard`: the frames that the callback got, the earliest first.
pub record Loop {ℓ} (A : Type ℓ) : Type ℓ where
  pub stream : MediaStream A
  pub running : Bool
  pub heard : List A

pub data Step {ℓ} (A : Type ℓ) : Type ℓ where
  turns : CallbackEnd → Step A
  arrives : FfiEvent A → Step A
  closes : Step A

module _ {ℓ} {A : Type ℓ} where
  abbrev pub after_read : CallbackEnd → Read A × MediaStream A → Loop A → Loop A
  after_read e (waiting, s) l = record l { stream = s }
  after_read e (ended, s) l = record l { stream = s; running = false }
  after_read e (delivered x, s) l = record l {
    stream = s;
    running = goes_on e;
    heard = l.heard ++ x ∷ [];
  }

  abbrev pub turn : CallbackEnd → Loop A → Loop A
  turn e l = if l.running then after_read e (read l.stream) l else l

  abbrev pub loop_step : Step A → Loop A → Loop A
  loop_step (turns e) l = turn e l
  loop_step (arrives e) l = record l { stream = (on_ffi_event e l.stream).0 }
  loop_step closes l = record l { stream = (close l.stream).0 }

  unfoldable pub loop_steps : List (Step A) → Loop A → Loop A
  loop_steps [] l = l
  loop_steps (x ∷ xs) l = loop_steps xs (loop_step x l)
