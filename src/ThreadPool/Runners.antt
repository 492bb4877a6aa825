-- ===== src/ThreadPool/Runners.antt =====
-- The sequences that rust_task/thread_pool/thread_pool.rs creates, those of its runners
-- (rust_task/thread_pool/pooled_sequenced_task_runner.rs) and those of single tasks, with the other
-- tokens that are taken from the one counter of rust_task/sequence_token.rs in between. The thread
-- group, the delayed task manager and the monitor, which the runners share, are those of System.
use rust_task_runner.Common.{
  ℕ, zero, suc, ◌+◌, ◌^◌, ◌<◌, ◌≡◌, refl, subst, List, [], ◌∷◌, some, length, get_elem?, arith,
}
use rust_task_runner.Task.{TaskTraits}
use rust_task_runner.ThreadLocals.{create}
use rust_task_runner.Sequence
use rust_task_runner.Sequence.{Sequence, set_task_runner}

-- `PooledSequencedTaskRunner::new` for the runner with number `runner`, over the counter of tokens.
unfoldable pub new_runner : TaskTraits → ℕ → ℕ → Sequence × ℕ
unfolding Sequence.new set_task_runner
new_runner traits runner next_sequence_id =
    let (sequence, next') = Sequence.new traits next_sequence_id in
    (set_task_runner runner sequence, next')

-- What takes a token: `create_sequenced_task_runner`, a task of `ThreadPool::post_task` or of a
-- parallel runner, which gets a sequence of its own, and `IoTaskRunner::new`.
pub data Creation : Type 0 where
  creates_runner : TaskTraits → Creation
  posts_task : TaskTraits → Creation
  creates_io_runner : Creation

-- What has the token.
pub data Created : Type 0 where
  sequence_of : Sequence → Created
  io_runner : ℕ → Created

abbrev pub token_of : Created → ℕ
token_of (sequence_of s) = s.token
token_of (io_runner token) = token

-- One creation, over the counter.
unfoldable pub create_one : Creation → ℕ → ℕ → Created × ℕ
unfolding new_runner Sequence.new create
create_one (creates_runner traits) runner next_sequence_id =
    let (sequence, next') = new_runner traits runner next_sequence_id in
    (sequence_of sequence, next')
create_one (posts_task traits) runner next_sequence_id =
    let (sequence, next') = Sequence.new traits next_sequence_id in (sequence_of sequence, next')
create_one creates_io_runner runner next_sequence_id =
    let (token, next') = create next_sequence_id in (io_runner token, next')

-- All creations of the process, in the order of their `fetch_add`. The number of a runner is its
-- place among them.
unfoldable pub create_all : List Creation → ℕ → ℕ → List Created
unfolding create_one
create_all [] runner next_sequence_id = []
create_all (c ∷ cs) runner next_sequence_id =
    let (created, next') = create_one c runner next_sequence_id in
    created ∷ create_all cs (runner + 1) next'

create_one-token : (c : Creation) (runner next : ℕ) → token_of (create_one c runner next).0 ≡ next
unfolding create_one new_runner Sequence.new set_task_runner create
create_one-token (creates_runner t) runner next = refl
create_one-token (posts_task t) runner next = refl
create_one-token creates_io_runner runner next = refl

create_one-next :
    (c : Creation) (runner next : ℕ) → next + 1 < 2 ^ 64 → (create_one c runner next).1 ≡ next + 1
unfolding create_one new_runner Sequence.new set_task_runner create
create_one-next (creates_runner t) runner next h = omega (arith, h)
create_one-next (posts_task t) runner next h = omega (arith, h)
create_one-next creates_io_runner runner next h = omega (arith, h)

create_all-token :
    (cs : List Creation) (runner next : ℕ)
    → next + length cs < 2 ^ 64
    → (k : ℕ) (c : Created) → get_elem? (create_all cs runner next) k ≡ some c
    → token_of c ≡ next + k
unfolding create_all
create_all-token [] runner next h k c e = absurd (cc e)
create_all-token (x ∷ xs) runner next h zero c e =
    let same : (create_one x runner next).0 ≡ c = cc e in
    subst (λ (d : Created). token_of d ≡ next + 0) same
      (omega (arith, create_one-token x runner next))
create_all-token (x ∷ xs) runner next h (suc k) c e =
    let rest =
      create_all-token xs (runner + 1) (next + 1) (omega (arith, h)) k c
        (subst at_next (create_one-next x runner next (omega (arith, h))) e) in
    omega (arith, rest)
  where
    at_next : ℕ → Type 0
    at_next n = get_elem? (create_all xs (runner + 1) n) k ≡ some c

-- Whatever the order in which a process creates sequenced runners, sequences of single tasks and IO
-- runners, a later creation has a larger token than an earlier one, so that no two of them share a
-- token: while the counter does not wrap.
pub create_all-increases :
    (cs : List Creation) (runner next : ℕ)
    → next + length cs < 2 ^ 64
    → (i j : ℕ) → i < j
    → (c d : Created) → get_elem? (create_all cs runner next) i ≡ some c
    → get_elem? (create_all cs runner next) j ≡ some d
    → token_of c < token_of d
create_all-increases cs runner next h i j before c d ci dj = omega (
  arith,
  before,
  create_all-token cs runner next h i c ci,
  create_all-token cs runner next h j d dj,
)
