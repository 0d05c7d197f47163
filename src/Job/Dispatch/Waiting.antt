-- ===== src/Job/Dispatch/Waiting.antt =====
-- job.rs, `dispatch_pending`: which work waits.
use mathlib.Core.List.Memᴰ
use mathlib.Core.List.{Memᴰ}
use clix.Prelude.{
  Bool-cases, List, Option-cases, Text, Text-discrete, [], ap, arith, false, inl, inr, map, none,
  refl, subst, sym, text, text_lt, true, ◌++◌, ◌↔◌, ◌∙◌, ◌∷◌, ◌≡◌, ◌≢◌, ◌⊎◌,
}
use clix.Types.{Job, OutboundRequest, Peer}
use clix.State.{Store}
use clix.Job.{is_terminal}
use clix.Job.Dispatch.{
  Work, candidates, history_work, insert_sorted, job_work, jobs_work, local_work, peer_work,
  remote_work, request_work, requests_work, sort_by_key, waits_to_start,
}

abbrev pub Candidate : Type 0
Candidate = Text × Work

-- The work that waits on a machine, under its key.
pub data Waits (s : Store) (c : Candidate) : Type 0 where
  remote :
      (j : Job)
      → Memᴰ j s.jobs
      → j.from ≡ s.body_name
      → j.body ≢ s.body_name
      → is_terminal j.status ≡ false
      → c ≡ (text "job:" ++ j.id, remote_work j)
      → Waits s c
  at_home :
      (j : Job)
      → Memᴰ j s.jobs
      → j.from ≡ s.body_name
      → j.body ≡ s.body_name
      → waits_to_start j.status ≡ true
      → c ≡ (text "local:" ++ j.id, local_work j)
      → Waits s c
  asking :
      (r : OutboundRequest)
      → Memᴰ r s.outbound_requests
      → r.error ≡ none
      → c ≡ (text "request:" ++ r.id, request_work r)
      → Waits s c
  history :
      (p : Peer) → Memᴰ p s.peers → c ≡ (text "history:" ++ p.name, history_work p) → Waits s c

pub mem-append {ℓ} :
    {A : Type ℓ} (a : A) (xs ys : List A) → Memᴰ a (xs ++ ys) ↔ (Memᴰ a xs ⊎ Memᴰ a ys)
mem-append a [] ys = (λ m. inr m, λ o. elim o [ inl m ↦ absurd (Memᴰ.not-nil m) | inr m ↦ m ])
mem-append a (x ∷ xs) ys = (
  λ m. elim (Memᴰ.cases_cons m) [
    | inl e ↦ inl (Memᴰ.head e)
    | inr r ↦ elim ((mem-append a xs ys).0 r) [ inl l ↦ inl (Memᴰ.tail l) | inr l ↦ inr l ]
  ],
  λ o. elim o [
    | inl m ↦ elim (Memᴰ.cases_cons m) [
      | inl e ↦ Memᴰ.head e
      | inr r ↦ Memᴰ.tail ((mem-append a xs ys).1 (inl r))
    ]
    | inr m ↦ Memᴰ.tail ((mem-append a xs ys).1 (inr m))
  ],
)

mem-insert_sorted :
    (a c : Candidate) (ds : List Candidate) → Memᴰ a (insert_sorted c ds) ↔ ((a ≡ c) ⊎ Memᴰ a ds)
unfolding insert_sorted
mem-insert_sorted a c [] = (
  λ m. elim (Memᴰ.cases_cons m) [ inl e ↦ inl e | inr r ↦ inr r ],
  λ o. elim o [ inl e ↦ Memᴰ.head e | inr r ↦ Memᴰ.tail r ],
)
mem-insert_sorted a c (d ∷ ds) = elim (Bool-cases (text_lt d.0 c.0)) [
  | inl t ↦ rw t (
    λ m. elim (Memᴰ.cases_cons m) [
      | inl e ↦ inr (Memᴰ.head e)
      | inr r ↦ elim ((mem-insert_sorted a c ds).0 r) [ inl e ↦ inl e | inr l ↦ inr (Memᴰ.tail l) ]
    ],
    λ o. elim o [
      | inl e ↦ Memᴰ.tail ((mem-insert_sorted a c ds).1 (inl e))
      | inr m ↦ elim (Memᴰ.cases_cons m) [
        | inl e ↦ Memᴰ.head e
        | inr r ↦ Memᴰ.tail ((mem-insert_sorted a c ds).1 (inr r))
      ]
    ],
  )
  | inr t ↦ rw t (
    λ m. elim (Memᴰ.cases_cons m) [ inl e ↦ inl e | inr r ↦ inr r ],
    λ o. elim o [ inl e ↦ Memᴰ.head e | inr r ↦ Memᴰ.tail r ],
  )
]

mem-sort_by_key : (a : Candidate) (cs : List Candidate) → Memᴰ a (sort_by_key cs) ↔ Memᴰ a cs
unfolding sort_by_key
mem-sort_by_key a [] = (λ m. m, λ m. m)
mem-sort_by_key a (c ∷ cs) = (
  λ m. elim ((mem-insert_sorted a c (sort_by_key cs)).0 m) [
    | inl e ↦ Memᴰ.head e
    | inr r ↦ Memᴰ.tail ((mem-sort_by_key a cs).0 r)
  ],
  λ m.
      (mem-insert_sorted a c (sort_by_key cs)).1
        (elim (Memᴰ.cases_cons m) [ inl e ↦ inl e | inr r ↦ inr ((mem-sort_by_key a cs).1 r) ]),
)

-- A job's work, as `Waits` tells it.
JobWaits : Text → Job → Candidate → Type 0
JobWaits body j c =
    (j.from ≡ body)
    × (((j.body ≢ body)
          × (is_terminal j.status ≡ false)
          × (c ≡ (text "job:" ++ j.id, remote_work j)))
        ⊎ ((j.body ≡ body)
            × (waits_to_start j.status ≡ true)
            × (c ≡ (text "local:" ++ j.id, local_work j))))

one {ℓ} : {A : Type ℓ} {a b : A} → Memᴰ a (b ∷ []) → a ≡ b
one m = elim (Memᴰ.cases_cons m) [ inl e ↦ e | inr r ↦ absurd (Memᴰ.not-nil r) ]

mem-job_work :
    (body : Text) (j : Job) (c : Candidate) → Memᴰ c (job_work body j) ↔ JobWaits body j c
unfolding job_work JobWaits
mem-job_work body j c = elim (Text-discrete j.from body) [
  | no n ↦
      let is : job_work body j ≡ [] = ground arith in
      (λ m. absurd (Memᴰ.not-nil (subst (Memᴰ c) is m)), λ w. absurd (n w.0))
  | yes e ↦ elim (Text-discrete j.body body) [
    | no n ↦ elim (Bool-cases (is_terminal j.status)) [
      | inl t ↦
          let is : job_work body j ≡ [] = ground arith in
          (
            λ m. absurd (Memᴰ.not-nil (subst (Memᴰ c) is m)),
            λ w. elim w.1 [ inl (a, b, d) ↦ absurd (ground arith) | inr (a, b, d) ↦ absurd (n a) ],
          )
      | inr t ↦
          let is : job_work body j ≡ (text "job:" ++ j.id, remote_work j) ∷ [] = ground arith in
          (
            λ m. (e, inl (n, t, one (subst (Memᴰ c) is m))),
            λ w. elim w.1 [
              | inl (a, b, d) ↦ subst (Memᴰ c) (sym is) (Memᴰ.head d)
              | inr (a, b, d) ↦ absurd (n a)
            ],
          )
    ]
    | yes f ↦ elim (Bool-cases (waits_to_start j.status)) [
      | inl t ↦
          let is : job_work body j ≡ (text "local:" ++ j.id, local_work j) ∷ [] = ground arith in
          (
            λ m. (e, inr (f, t, one (subst (Memᴰ c) is m))),
            λ w. elim w.1 [
              | inl (a, b, d) ↦ absurd (a f)
              | inr (a, b, d) ↦ subst (Memᴰ c) (sym is) (Memᴰ.head d)
            ],
          )
      | inr t ↦
          let is : job_work body j ≡ [] = ground arith in
          (
            λ m. absurd (Memᴰ.not-nil (subst (Memᴰ c) is m)),
            λ w. elim w.1 [ inl (a, b, d) ↦ absurd (a f) | inr (a, b, d) ↦ absurd (ground arith) ],
          )
    ]
  ]
]

mem-jobs_work :
    (body : Text) (jobs : List Job) (c : Candidate)
    → Memᴰ c (jobs_work body jobs) ↔ ((j : Job) × Memᴰ j jobs × JobWaits body j c)
unfolding jobs_work
mem-jobs_work body [] c = (λ m. absurd (Memᴰ.not-nil m), λ w. absurd (Memᴰ.not-nil w.1))
mem-jobs_work body (j ∷ jobs) c = (
  λ m. elim ((mem-append c (job_work body j) (jobs_work body jobs)).0 m) [
    | inl l ↦ (j, Memᴰ.head refl, (mem-job_work body j c).0 l)
    | inr r ↦ let (i, m', w) = (mem-jobs_work body jobs c).0 r in (i, Memᴰ.tail m', w)
  ],
  λ (i, m, w). (mem-append c (job_work body j) (jobs_work body jobs)).1 (elim (Memᴰ.cases_cons m) [
    | inl e ↦ inl ((mem-job_work body j c).1 (subst (λ x. JobWaits body x c) e w))
    | inr r ↦ inr ((mem-jobs_work body jobs c).1 (i, r, w))
  ]),
)

mem-requests_work :
    (rs : List OutboundRequest) (c : Candidate)
    → Memᴰ c (requests_work rs) ↔ (
        (r : OutboundRequest) × Memᴰ r rs
        × (r.error ≡ none)
        × (c ≡ (text "request:" ++ r.id, request_work r)))
unfolding requests_work
mem-requests_work [] c = (λ m. absurd (Memᴰ.not-nil m), λ w. absurd (Memᴰ.not-nil w.1))
mem-requests_work (r ∷ rs) c = elim (Option-cases r.error) [
  | inl t ↦
      let is : requests_work (r ∷ rs)
          ≡ (text "request:" ++ r.id, request_work r) ∷ requests_work rs =
        ground arith in
      (
        λ m. elim (Memᴰ.cases_cons (subst (Memᴰ c) is m)) [
          | inl e ↦ (r, Memᴰ.head refl, t, e)
          | inr l ↦ let (x, m', n, w) = (mem-requests_work rs c).0 l in (x, Memᴰ.tail m', n, w)
        ],
        λ (x, m, n, w). subst (Memᴰ c) (sym is) (elim (Memᴰ.cases_cons m) [
          | inl e ↦
              Memᴰ.head
                (w ∙ ap (λ (y : OutboundRequest). (text "request:" ++ y.id, request_work y)) e)
          | inr l ↦ Memᴰ.tail ((mem-requests_work rs c).1 (x, l, n, w))
        ]),
      )
  | inr (why, t) ↦
      let is : requests_work (r ∷ rs) ≡ requests_work rs = ground arith in
      (
        λ m.
            let (x, m', n, w) = (mem-requests_work rs c).0 (subst (Memᴰ c) is m) in
            (x, Memᴰ.tail m', n, w),
        λ (x, m, n, w). subst (Memᴰ c) (sym is) (elim (Memᴰ.cases_cons m) [
          | inl e ↦ absurd (let y = ap (λ (z : OutboundRequest). z.error) e in cc)
          | inr l ↦ (mem-requests_work rs c).1 (x, l, n, w)
        ]),
      )
]

mem-peers_work :
    (ps : List Peer) (c : Candidate)
    → Memᴰ c (map peer_work ps)
      ↔ ((p : Peer) × Memᴰ p ps × (c ≡ (text "history:" ++ p.name, history_work p)))
unfolding peer_work
mem-peers_work [] c = (λ m. absurd (Memᴰ.not-nil m), λ w. absurd (Memᴰ.not-nil w.1))
mem-peers_work (p ∷ ps) c = (
  λ m. elim (Memᴰ.cases_cons m) [
    | inl e ↦ (p, Memᴰ.head refl, e)
    | inr r ↦ let (x, m', w) = (mem-peers_work ps c).0 r in (x, Memᴰ.tail m', w)
  ],
  λ (x, m, w). elim (Memᴰ.cases_cons m) [
    | inl e ↦ Memᴰ.head (w ∙ ap (λ (y : Peer). (text "history:" ++ y.name, history_work y)) e)
    | inr r ↦ Memᴰ.tail ((mem-peers_work ps c).1 (x, r, w))
  ],
)

pub mem-candidates : (s : Store) (c : Candidate) → Memᴰ c (candidates s) ↔ Waits s c
unfolding candidates JobWaits
mem-candidates s c =
    let jobs = jobs_work s.body_name s.jobs in
    let requests = requests_work s.outbound_requests in
    let peers = map peer_work s.peers in
    let sorted = mem-sort_by_key c (jobs ++ (requests ++ peers)) in
    let outer = mem-append c jobs (requests ++ peers) in
    let inner = mem-append c requests peers in
    let of_jobs = mem-jobs_work s.body_name s.jobs c in
    let of_requests = mem-requests_work s.outbound_requests c in
    let of_peers = mem-peers_work s.peers c in
    (
      λ m. elim (outer.0 (sorted.0 m)) [
        | inl m' ↦
            let (j, held, (from_here, kind)) = of_jobs.0 m' in
            elim kind [
              | inl (away, unfinished, e) ↦ remote j held from_here away unfinished e
              | inr (here, waits, e) ↦ at_home j held from_here here waits e
            ]
        | inr m' ↦ elim (inner.0 m') [
          | inl m'' ↦ let (r, held, n, e) = of_requests.0 m'' in asking r held n e
          | inr m'' ↦ let (p, held, e) = of_peers.0 m'' in history p held e
        ]
      ],
      λ w. sorted.1 (
          outer.1 (elim w [
            | remote j m a b t e ↦ inl (of_jobs.1 (j, m, (a, inl (b, t, e))))
            | at_home j m a b t e ↦ inl (of_jobs.1 (j, m, (a, inr (b, t, e))))
            | asking r m n e ↦ inr (inner.1 (inl (of_requests.1 (r, m, n, e))))
            | history p m e ↦ inr (inner.1 (inr (of_peers.1 (p, m, e))))
          ])),
    )
