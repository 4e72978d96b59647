-- ===== src/Cell/Jobs.antt =====
-- The queue between the thread that receives requests and the one that carries them out. Allocation
-- succeeds, and the mutex makes a submission and a removal one step each.
use dpb_s_mgmt.Base.{
  ℕ, ◌+◌, ◌-◌, ◌%◌, Option, none, some, List, length, get_or, set, replicate, leb, ◌==◌,
  if◌then◌else◌, general, Result, ok, err,
}
use dpb_s_mgmt.Cpri.{Header, Message, encode_message}
use dpb_s_mgmt.Cell.{Antenna, State}
use dpb_s_mgmt.Cell.Request.{busy_ies, response_of, bytes_of, create_response}

-- `CELL_CFG_JOB_QUEUE_LEN`
abbrev pub queue_len : ℕ
queue_len = 8

-- `CELL_CFG_RESP_BUF_SIZE`
abbrev pub resp_buf_size : ℕ
resp_buf_size = 4096

-- `cell_cfg_job_t`; the payload is a copy.
pub record Job : Type 0 where
  pub paau_id : ℕ
  pub bbu_id : ℕ
  pub port_num : ℕ
  pub serial_num : ℕ
  pub payload : List ℕ

-- `g_job_queue`, `g_job_head`, `g_job_tail` and `g_job_count`
pub record Jobs : Type 0 where
  pub queue : List (Option Job)
  pub head : ℕ
  pub tail : ℕ
  pub count : ℕ

abbrev pub no_jobs : Jobs
no_jobs = record { queue = replicate queue_len none; head = 0; tail = 0; count = 0 }

-- The bytes that a response is sent as, where it fits the buffer.
unfoldable pub encoded : Message (List ℕ) → Option (List ℕ)
encoded msg = elim (encode_message msg resp_buf_size) [ ok bytes ↦ some bytes | err e ↦ none ]

-- `cell_config_send_busy_response`: what is sent.
unfoldable pub busy_response : Header → List ℕ → Option (List ℕ)
busy_response h request =
    let payload = busy_ies (length request) request none in
    if length (bytes_of payload) == 0 then none else encoded (response_of h payload)

abbrev pub job_of : Header → List ℕ → Job
job_of h payload = record {
  paau_id = h.paau_id;
  bbu_id = h.bbu_id;
  port_num = h.port_num;
  serial_num = h.serial_num;
  payload = payload;
}

-- `cell_config_submit_request`: what it returns, the queue, and what is sent.
unfoldable pub submit_request : Header → List ℕ → Jobs → Result (Unit {0}) × Jobs × Option (List ℕ)
submit_request h payload q =
    if leb queue_len q.count then (err general, q, busy_response h payload) else (
      ok tt,
      record q {
        queue = set q.queue q.tail (some (job_of h payload));
        tail = (q.tail + 1) % queue_len;
        count = q.count + 1;
      },
      none,
    )

-- The locked part of a round of `cell_cfg_worker`; without a job it waits.
unfoldable pub take_job : Jobs → Option (Option Job × Jobs)
take_job q =
    if q.count == 0
    then none
    else some (
      get_or q.queue q.head none,
      record q {
        queue = set q.queue q.head none;
        head = (q.head + 1) % queue_len;
        count = q.count - 1;
      },
    )

-- The header that the worker puts together from a job.
abbrev pub request_header : Job → Header
request_header j = record {
  msg_id = 195;
  msg_length = 0;
  paau_id = j.paau_id;
  bbu_id = j.bbu_id;
  port_num = j.port_num;
  serial_num = j.serial_num;
}

-- The rest of the round: the state, and what is sent.
unfoldable pub run_job :
    {W : Type 0}
    → Antenna W
    → (State W → State W)
    → (State W → State W)
    → Job
    → State W
    → State W × Option (List ℕ)
run_job antenna other meanwhile j s =
    let (s', response) = create_response antenna other meanwhile (request_header j) j.payload s in
    (s', encoded response)
