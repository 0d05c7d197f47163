-- ===== src/Pin/Recovery/Write.antt =====
-- pin.rs, `write_receipt`: a receipt is written to a temporary file, which is renamed onto it.

use clix.Error.{ClixError, Result, err, io, is_ok, ok, refuse_if, ◌>>◌}
use clix.Prelude.{
  Bool, Text, ap, arith, false, get, get-insert-other, get-remove-other, if◌then◌else◌, insert,
  is_some, refl, remove, some, text, true, ◌++◌, ◌∙◌, ◌≡◌, ◌≢◌,
}
use clix.Ids.{new_id}
use clix.Pin.Tree.{Files, Node, regular}
use clix.Pin.Recovery.{Codec, RecoveryReceipt, valid_recovery_name}

-- The outcomes of the system calls that one writing makes, and what a write that fails leaves.
pub record Writes : Type 0 where
  pub random : Result Text
  pub create : Result (Unit {0})
  pub write : Result (Unit {0})
  pub partial : Text
  pub sync : Result (Unit {0})
  pub rename : Result (Unit {0})
  pub sync_dir : Result (Unit {0})

-- Held files are created with mode 0600, and never over another.
unfoldable pub private_file : Text → Node
private_file bytes = regular (record { bytes = bytes; mode = 384 })

unfoldable pub exists_error : ClixError
exists_error = io (text "File exists (os error 17)")

unfoldable pub create_new : Result (Unit {0}) → Text → Files → Result (Unit {0})
create_new create name held = do refuse_if (is_some (get name held)) exists_error; create

-- A call on what is held, and the calls after it where it succeeds.
unfoldable pub and_then :
    {S T : Type 0} → Files × Result S → (Files → S → Files × Result T) → Files × Result T
and_then (held, err e) rest = (held, err e)
and_then (held, ok s) rest = rest held s

unfoldable pub left_by : Result (Unit {0}) → Text → Text → Text
left_by written bytes partial = if is_ok written then bytes else partial

write_receipt : Writes → Text → Text → Text → Files → Files × Result (Unit {0})
unfolding and_then left_by
write_receipt w name bytes tmp held =
    and_then (held, create_new w.create tmp held)
      (λ held _.
        and_then
          (
            insert tmp (private_file (left_by w.write bytes w.partial)) held,
            w.write >> w.sync >> w.rename,
          )
          (λ held _. (insert name (private_file bytes) (remove tmp held), w.sync_dir)))

unfoldable pub write_typed_receipt :
    Codec → Writes → Text → RecoveryReceipt → Files → Files × Result (Unit {0})
unfolding and_then write_receipt
write_typed_receipt codec w id receipt held =
    and_then (held, valid_recovery_name id >> new_id w.random)
      (λ held random_name.
        write_receipt w id (codec.print receipt) (random_name ++ text ".tmp") held)

pub and_then-keeps :
    {S T : Type 0} (k : Text) (node : Node) (first : Files × Result S)
    (rest : Files → S → Files × Result T)
    → get k first.0 ≡ some node
    → ((held : Files) (s : S)
        → first ≡ (held, ok s)
        → get k held ≡ some node
        → get k (rest held s).0 ≡ some node)
    → get k (and_then first rest).0 ≡ some node
unfolding and_then
and_then-keeps k node (held, err e) rest h next = h
and_then-keeps k node (held, ok s) rest h next = next held s refl h

-- A chain that succeeds has succeeded in its first call.
pub and_then-ok :
    {S T : Type 0} (first : Files × Result S) (rest : Files → S → Files × Result T) (t : T)
    → (and_then first rest).1 ≡ ok t
    → (s : S) × (first.1 ≡ ok s)
      × ((rest first.0 s).1 ≡ ok t)
      × ((and_then first rest).0 ≡ (rest first.0 s).0)
unfolding and_then
and_then-ok (held, err e) rest t p = absurd (ground arith)
and_then-ok (held, ok s) rest t p = (s, refl, p, refl)

pub choose-keeps :
    {T : Type 0} (b : Bool) (x y : Files × Result T) (k : Text) (node : Node)
    → get k x.0 ≡ some node
    → get k y.0 ≡ some node
    → get k (if b then x else y).0 ≡ some node
choose-keeps true x y k node p q = p
choose-keeps false x y k node p q = q

pub create_new-absent :
    (create : Result (Unit {0})) (tmp : Text) (held : Files) (k : Text) (node : Node) (u : Unit {0})
    → get k held ≡ some node
    → tmp ≡ k
    → create_new create tmp held ≢ ok u
unfolding create_new
create_new-absent create tmp held k node u e same made =
    let there : get tmp held ≡ some node = rw same e in ground arith

write_receipt-keeps :
    (w : Writes) (name bytes tmp : Text) (held : Files) (k : Text) (node : Node)
    → ¬ (name ≡ k)
    → get k held ≡ some node
    → get k (write_receipt w name bytes tmp held).0 ≡ some node
unfolding write_receipt create_new
write_receipt-keeps w name bytes tmp held k node n e =
    and_then-keeps k node (held, create_new w.create tmp held) _ e
      (λ held' u made e'.
        let fresh : ¬ (tmp ≡ k) =
          λ same. create_new-absent w.create tmp held k node u e same (ap (λ t. t.1) made) in
        let staged = private_file (left_by w.write bytes w.partial) in
        and_then-keeps k node (insert tmp staged held', w.write >> w.sync >> w.rename) _
          (get-insert-other tmp k staged held' fresh ∙ e')
          (λ held'' _ _ e''.
            get-insert-other name k (private_file bytes) (remove tmp held'') n
            ∙ (get-remove-other tmp k held'' fresh ∙ e'')))

-- What is held under another name than the receipt's stays.
pub write_typed_receipt-keeps :
    (codec : Codec) (w : Writes) (id : Text) (receipt : RecoveryReceipt) (held : Files) (k : Text)
    (node : Node)
    → ¬ (id ≡ k)
    → get k held ≡ some node
    → get k (write_typed_receipt codec w id receipt held).0 ≡ some node
unfolding write_typed_receipt
write_typed_receipt-keeps codec w id receipt held k node n e =
    and_then-keeps k node (held, valid_recovery_name id >> new_id w.random) _ e
      (λ held' random_name _ e'.
        write_receipt-keeps w id (codec.print receipt) (random_name ++ text ".tmp") held' k node n
          e')
