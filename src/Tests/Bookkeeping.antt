-- ===== src/Tests/Bookkeeping.antt =====
-- A job whose facts are published, an id that stays spent, and a state that is encoded.
use clix.Prelude.{
  Text-discrete, Texts-discrete, [], find, get, hex, insert, length, none, refl, retain, some, text,
  ℕ_discrete, ◌∷◌, ◌≡◌, ◌≤◌,
}
use clix.Types.{JobStatus-discrete, running}
use clix.Error.{ok}
use clix.State.{Store, contains, next_u64}
use clix.State.Frame.{Kept}
use clix.History.{
  Entry, History, OutputRef, OutputRef-discrete, Role-discrete, legacy_observer, origin, runner,
  selected,
}
use clix.History.Refresh.{refresh_owned}
use clix.History.Refresh.Frame.{refresh_owned-Kept}
use clix.Exec.{Delivery, submit}
use clix.Exec.Spent.{IsSpent}
use clix.Exec.Once.{submit-IsSpent}
use clix.Storage.{encode, state_bytes}
use clix.Storage.Encoding.{concat, encode-concat}
use clix.Tests.{
  clock, delivery, empty_store, host, ls_job, no_history, random_bytes, running_sidecar,
  running_store, seed, slots,
}

abbrev nothing : OutputRef
nothing = record { bytes = 0; sha256 = [] }

-- The entry that the refresh makes for the running job.
abbrev entry : Entry
entry = record {
  record_of = record {
    certificate = record {
      invocation = record {
        id = text "j1";
        from = text "a";
        origin_key = seed;
        body = text "b";
        runner_key = seed;
        argv = text "ls" ∷ [];
        retry_of = none;
        legacy_observer = some (text "b");
      };
      signature = [];
    };
    origin = some (record {
      fact = record {
        invocation = [];
        role = legacy_observer;
        revision = 1;
        status = running;
        stdout = nothing;
        stderr = nothing;
      };
      signature = [];
    });
    runner = none;
  };
  change = 2;
  output = none;
}

abbrev published_store : Store
published_store = record running_store {
  history = record no_history { clock = 2; entries = ([], entry) ∷ [] };
  job_certificates = (text "j1", []) ∷ [];
  legacy_jobs = (text "j1", tt) ∷ [];
}

publishes :
    refresh_owned host (ok random_bytes) (some empty_store) running_store ≡ ok published_store
unfolding clix.History.Keys.certificate clix.History.Keys.hash clix.History.Keys.invocation_hash
    clix.History.Keys.known_key clix.History.Keys.matches_job clix.History.Keys.next_change
    clix.History.Keys.output_ref clix.History.Keys.public_key clix.History.Keys.signing_key
    clix.History.OutputRef-discrete clix.History.Refresh.refresh_owned clix.History.Role-discrete
    clix.History.selected clix.Prelude.Text-discrete clix.Prelude.Texts-discrete clix.Prelude.find
    clix.Prelude.get clix.Prelude.hex clix.Prelude.insert clix.Prelude.retain clix.Prelude.text
    clix.Prelude.ℕ_discrete clix.State.contains clix.State.next_u64
publishes = refl

refresh_owned-Kept_example : Kept running_store published_store
refresh_owned-Kept_example =
    refresh_owned-Kept host (ok random_bytes) (some empty_store) running_store published_store
      publishes

running-IsSpent : IsSpent (text "j1") running_store
unfolding clix.Prelude.Text-discrete clix.Prelude.find clix.Prelude.text clix.Prelude.ℕ_discrete
    clix.Types.JobStatus-discrete
running-IsSpent = record { job = ls_job; at = refl; left = refl }

abbrev other_delivery : Delivery
other_delivery = record delivery { id = text "j2" }

submit-IsSpent_example :
    IsSpent (text "j1") (submit host clock running_sidecar slots other_delivery).sidecar.store
submit-IsSpent_example =
    submit-IsSpent host clock running_sidecar slots other_delivery (text "j1") running-IsSpent

encodes : encode host empty_store ≡ ok (text "{}")
unfolding encode clix.Prelude.text
encodes = refl

encode-concat_example : (text "{}" ≡ concat (text "{}" ∷ [])) × (length (text "{}") ≤ state_bytes)
encode-concat_example = encode-concat host empty_store (text "{}") encodes
