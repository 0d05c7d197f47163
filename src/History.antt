-- ===== src/History.antt =====
-- history.rs: the verified history of invocations. This file holds its records; the children hold
-- its operations.
pub mod Keys
pub mod Authority
pub mod Facts
pub mod Refresh
pub mod Ingest
pub mod Normalize
pub mod Reply
pub mod Pages
use clix.Prelude.{Bool, Eq, List, Map, Option, Text, or_else, ℕ, ℕ_discrete}
use clix.Types.{BodyId, JobStatus}

pub record Invocation : Type 0 where
  pub id : Text
  pub from : BodyId
  pub origin_key : Text
  pub body : BodyId
  pub runner_key : Text
  pub argv : List Text
  pub retry_of : Option Text
  pub legacy_observer : Option BodyId

pub record Certificate : Type 0 where
  pub invocation : Invocation
  pub signature : Text

pub data Role : Type 0 where
  origin runner legacy_observer : Role

pub record OutputRef : Type 0 where
  pub bytes : ℕ
  pub sha256 : Text

pub record Fact : Type 0 where
  pub invocation : Text
  pub role : Role
  pub revision : ℕ
  pub status : JobStatus
  pub stdout : OutputRef
  pub stderr : OutputRef

pub record SignedFact : Type 0 where
  pub fact : Fact
  pub signature : Text

pub record Record : Type 0 where
  pub certificate : Certificate
  pub origin : Option SignedFact
  pub runner : Option SignedFact

pub record CapturedOutput : Type 0 where
  pub stdout : Text
  pub stderr : Text

pub record Entry : Type 0 where
  pub record_of : Record
  pub change : ℕ
  pub output : Option CapturedOutput

pub record Progress : Type 0 where
  pub epoch : Text
  pub cursor : ℕ
  pub high : ℕ
  pub complete : Bool
  pub unknown_authors : Bool
  pub last_contact : Option ℕ
  pub error : Option Text

pub record History : Type 0 where
  pub initialized : Bool
  pub epoch : Text
  pub clock : ℕ
  pub trust : Text
  pub entries : Map Entry
  pub peers : Map Progress

pub record Published : Type 0 where
  pub record_of : Record
  pub output : Option CapturedOutput
  pub change : ℕ

pub record Page : Type 0 where
  pub epoch : Text
  pub reset : Bool
  pub high : ℕ
  pub next : ℕ
  pub complete : Bool
  pub entries : List Published

unfoldable pub Role-discrete : Discrete Role
Role-discrete = hlevel

unfoldable pub OutputRef-discrete : Discrete OutputRef
OutputRef-discrete = hlevel ℕ_discrete

unfoldable pub SignedFact-discrete : Discrete SignedFact
SignedFact-discrete = hlevel ℕ_discrete

unfoldable pub Certificate-discrete : Discrete Certificate
Certificate-discrete = hlevel ℕ_discrete

unfoldable pub CapturedOutput-discrete : Discrete CapturedOutput
CapturedOutput-discrete = hlevel ℕ_discrete

instance abbrev pub role_eq : Eq Role
role_eq = record { dec = Role-discrete }

instance abbrev pub output_ref_eq : Eq OutputRef
output_ref_eq = record { dec = OutputRef-discrete }

instance abbrev pub signed_fact_eq : Eq SignedFact
signed_fact_eq = record { dec = SignedFact-discrete }

instance abbrev pub certificate_eq : Eq Certificate
certificate_eq = record { dec = Certificate-discrete }

instance abbrev pub captured_output_eq : Eq CapturedOutput
captured_output_eq = record { dec = CapturedOutput-discrete }

-- `Record::selected`.
unfoldable pub selected : Record → Option SignedFact
selected r = or_else r.runner r.origin
