-- ===== src/Tests/Pairing.antt =====
-- Two machines that pair.
use clix.Error.{ClixError, Result, capacity, err, ok}
use clix.Prelude.{
  Text, Text-discrete, Texts-discrete, [], arith, decimal_int, false, find, get, hex, insert, none,
  refl, retain, some, text, update_first, ℕ_discrete, ◌++◌, ◌∷◌, ◌≡◌,
}
use clix.Types.{Peer}
use clix.State.{Host, Store, contains, next_u64}
use clix.Store.{Sidecar, ensure_writable, save_encoded, stage, update}
use clix.Pair.{
  PairIdentity, owner_pk, put_peer, update_peer, validate_name, validate_peers, validate_store,
}
use clix.Pair.Trusts.{Trusts, update_peer-Trusts}
use clix.Pair.Handshake.{Exchange, handshake_join, handshake_listen}
use clix.Pair.Handshake.Honest.{Agreed, Honest, handshakes-Honest}
use clix.Mesh.{Reply, be_bytes, call_reply, reply_to, send_refusal, write_frame}
use clix.Mesh.Wire.{as_seen, call_reply-send_refusal}
use clix.Mesh.Dispatch.{Machine, Message, Surroundings, after_exec, dispatch, exec}
use clix.Mesh.Dispatch.Confined.{Confined, dispatch-Confined}
use clix.Pin.Scan.{end}
use clix.Tests.Pins.{calm, codec}
use clix.Tests.{clock, empty_store, fine, host, ls_grant, ls_job, seed, sidecar, slots}

-- A host with one public key for every seed.
abbrev keyed : Host
keyed = record host { public_of = λ _. text "ABCDEFGHIJKLMNOPQRSTUVWXYZ012345" }

abbrev other_key : Text
other_key = text "abcdefghijklmnopqrstuvwxyz012345"

abbrev newcomer : Peer
newcomer = record { name = text "c"; owner_pk = other_key; addr = none }

abbrev alone : Store
alone = record empty_store { peers = [] }

abbrev joined : Store
joined = record alone { peers = newcomer ∷ [] }

saves : update_peer keyed (λ _. false) [] newcomer alone ≡ ok joined
unfolding clix.Prelude.Text-discrete clix.Prelude.find clix.Prelude.text clix.Prelude.ℕ_discrete
    clix.Pair.owner_pk clix.Pair.put_peer clix.Pair.update_peer clix.Pair.validate_name
    clix.Pair.validate_peers clix.Pair.validate_store
saves = refl

update_peer-Trusts_example : Trusts newcomer alone joined
update_peer-Trusts_example = update_peer-Trusts keyed (λ _. false) [] newcomer alone joined saves

abbrev here : PairIdentity
here = record {
  name = text "b";
  owner_pk = text "ABCDEFGHIJKLMNOPQRSTUVWXYZ012345";
  addr = some (text "x");
}

abbrev there : PairIdentity
there = record { name = text "c"; owner_pk = other_key; addr = none }

abbrev exchange : Exchange
exchange = record {
  hello = ok tt;
  answer = ok tt;
  key = ok tt;
  identity = ok there;
  send_identity = ok tt;
  confirmation = ok (record { joiner = there; listener = here });
  send_confirmation = ok tt;
  address = none;
}

abbrev unpaired : Sidecar
unpaired = record { store = alone; disk = none }

handshakes-Honest_example :
    Honest unpaired (handshake_listen keyed (λ _. false) [] exchange fine alone unpaired (text "x"))
    × Agreed keyed
        (λ _. false)
        []
        exchange
        alone
        (text "x")
        unpaired
        (handshake_listen keyed (λ _. false) [] exchange fine alone unpaired (text "x"))
    × Honest unpaired
        (handshake_join keyed (λ _. false) [] exchange fine alone unpaired (text "y") (text "x"))
handshakes-Honest_example =
    handshakes-Honest keyed (λ _. false) [] exchange fine alone unpaired (text "y") (text "x")

-- A refusal for lack of room, and the caller's reading of it.
abbrev busy : ClixError
busy = capacity (text "busy")

abbrev print_none : Reply → Text
print_none _ = []

abbrev parse_busy : Text → Result Reply
parse_busy _ = ok (reply_to busy)

sends_busy : send_refusal print_none busy ≡ ok (0 ∷ 0 ∷ 0 ∷ 0 ∷ [])
unfolding clix.Mesh.send_refusal clix.Mesh.write_frame clix.Mesh.be_bytes
sends_busy = refl

call_reply-send_refusal_example :
    call_reply parse_busy ((0 ∷ 0 ∷ 0 ∷ 0 ∷ []) ++ (7 ∷ [])) ≡ err (as_seen busy)
call_reply-send_refusal_example =
    call_reply-send_refusal print_none parse_busy busy (0 ∷ 0 ∷ 0 ∷ 0 ∷ []) (7 ∷ []) refl sends_busy

abbrev machine : Machine
machine = record { sidecar = unpaired; limits = slots; files = []; held = [] }

abbrev surroundings : Surroundings
surroundings = record {
  clock = clock;
  millis = 7;
  root = ok (text "/p");
  entries = end;
  outside = calm;
}

abbrev peer_a : Peer
peer_a = record { name = text "a"; owner_pk = seed; addr = none }

-- The peer `a` asks for the command that it is granted.
abbrev granting_machine : Machine
granting_machine = record machine { sidecar = sidecar }

abbrev ls_message : Message
ls_message = exec (ok (text "ls" ∷ [])) (some (text "j1"))

runs_ls :
    (dispatch host codec surroundings peer_a granting_machine ls_message).1
    ≡ some (ls_grant, ls_job)
unfolding dispatch clix.Exec.submit clix.Grant.check_args clix.Grant.check_at
    clix.History.Keys.certificate clix.History.Keys.hash clix.History.Keys.invocation_hash
    clix.History.Keys.known_key clix.History.Keys.matches_job clix.History.Keys.next_change
    clix.History.Keys.output_ref clix.History.Keys.public_key clix.History.Keys.signing_key
    clix.History.Normalize.normalize_output clix.History.OutputRef-discrete
    clix.History.Refresh.refresh_owned clix.History.Role-discrete clix.History.selected
    clix.Ids.new_id clix.Job.is_terminal clix.Limits.contains_nul clix.Limits.identifier
    clix.Limits.invocation clix.Limits.take_child clix.Limits.tool clix.Prelude.Text-discrete
    clix.Prelude.Texts-discrete clix.Prelude.decimal_int clix.Prelude.find clix.Prelude.get
    clix.Prelude.hex clix.Prelude.insert clix.Prelude.retain clix.Prelude.text
    clix.Prelude.update_first clix.Prelude.ℕ_discrete clix.Storage.Charge.reserve_completion
    clix.Storage.Prune.count_limit clix.Storage.Prune.prepare clix.Storage.encode
    clix.Storage.output_bytes clix.Store.ensure_writable clix.Store.save_encoded clix.Store.stage
    clix.Store.update clix.Limits.take_mesh_exec clix.Mesh.Dispatch.after_exec clix.State.contains
    clix.State.next_u64 clix.Storage.Charge.completion_charge clix.Storage.Charge.payload_json_bytes
    clix.Limits.drop_mesh_exec
runs_ls = refl

dispatch-Confined_example :
    Confined host codec surroundings peer_a ls_message granting_machine
      (dispatch host codec surroundings peer_a granting_machine ls_message)
dispatch-Confined_example =
    dispatch-Confined host codec surroundings peer_a granting_machine ls_message (omega arith)
