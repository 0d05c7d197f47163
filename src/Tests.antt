-- ===== src/Tests.antt =====
-- Concrete machines, grants and jobs, on which the theorems are tried.
mod Running
mod Records
mod Bookkeeping
mod Remote
mod Times
mod Pins
mod Pairing
use clix.Prelude.{Text, [], false, none, pos, some, text, true, ◌∷◌}
use clix.Types.{Grant, Job, Moment, mon, running}
use clix.Error.{ok}
use clix.History.{History}
use clix.Grant.Resolve.{Env}
use clix.State.{Host, Store}
use clix.Store.{Sidecar, Sys, format_version}
use clix.Exec.{Clock, Delivery}
use clix.Limits.{Limits, status, tool}

-- A host whose signatures are all accepted and whose encodings are short.
abbrev pub host : Host
host = record {
  digest = λ _. [];
  public_of = λ key. key;
  sign = λ _ _. [];
  is_point = λ _. true;
  is_signature = λ _. true;
  verify_strict = λ _ _ _. true;
  json_invocation = λ i. i.id;
  json_fact = λ _. [];
  json_trust = λ _. [];
  json_text = λ t. t;
  json_published = λ _. text "{}";
  json_store = λ _. (text "{}" ∷ [], none);
}

abbrev pub no_history : History
no_history = record {
  initialized = true;
  epoch = text "e";
  clock = 0;
  trust = [];
  entries = [];
  peers = [];
}

abbrev pub seed : Text
seed = text "0123456789abcdef0123456789abcdef"

abbrev pub empty_store : Store
empty_store = record {
  dir = text "/s";
  write_error = none;
  body_name = text "b";
  owner_sk = seed;
  peers = record { name = text "a"; owner_pk = seed; addr = none } ∷ [];
  grants = [];
  jobs = [];
  requests = [];
  outbound_requests = [];
  request_receipts = [];
  pin_index = record { peers = []; last_sync = none; hashes = []; last_error = none };
  history = no_history;
  retry_links = [];
  job_certificates = [];
  legacy_jobs = [];
  output_pruned = [];
  history_pruned = [];
  format_version = 2;
  pin_enabled = false;
  pin_dir = none;
}

abbrev pub ls_grant : Grant
ls_grant = record {
  tool = text "ls";
  binary = text "/ls";
  allow_from = some (text "a" ∷ []);
  once = true;
  until = none;
  schedule = none;
  reservation = none;
  args = none;
}

abbrev pub granting : Store
granting = record empty_store { grants = ls_grant ∷ [] }

abbrev pub noon : Moment
noon = record { instant = pos 10; weekday = mon; day = 1; time = 43200 }

-- Every system call succeeds.
abbrev pub random_bytes : Text
random_bytes = text "0123456789abcdef"

abbrev pub fine : Sys
fine = record {
  epoch_random = ok random_bytes;
  private_dir = ok tt;
  name_random = ok random_bytes;
  create = ok tt;
  write = ok tt;
  sync = ok tt;
  rename = ok tt;
  sync_dir = ok tt;
}

abbrev pub clock : Clock
clock = record { now = noon; random = ok random_bytes; sys = fine }

abbrev pub sidecar : Sidecar
sidecar = record { store = granting; disk = none }

abbrev pub slots : Limits
slots = record { children = 4; mesh = 16; mesh_exec = 4; owner = 32; waiters = 8 }

abbrev pub delivery : Delivery
delivery = record { from = text "a"; argv = text "ls" ∷ []; id = text "j1"; certificate = none }

abbrev pub ls_job : Job
ls_job = record {
  id = text "j1";
  body = text "b";
  argv = text "ls" ∷ [];
  from = text "a";
  status = running;
  stdout = [];
  stderr = [];
}

abbrev pub running_store : Store
running_store = record empty_store { jobs = ls_job ∷ [] }

abbrev pub running_sidecar : Sidecar
running_sidecar = record { store = running_store; disk = none }

-- Two executables, which are where they are asked for.
abbrev pub env : Env
env = record {
  path_var = some (text "/bin");
  metadata = λ _. some (true, 493);
  absolute = λ p. ok p;
}
