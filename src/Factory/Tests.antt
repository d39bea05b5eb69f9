-- ===== src/Factory/Tests.antt =====
-- Runs of factory.cc.
use shm_ipc.Base.{◌+◌, ◌≡◌, refl, true, false, some, [], ◌∷◌, length, arith}
use shm_ipc.Base.Outcome.{returns}
use shm_ipc.Factory.{RouterFactory, CreateArgs, create_parent_router, create_child_router}
use shm_ipc.Factory.Ends.{routers-cross}
use shm_ipc.Factory.Initialize.{Host, initialize}
use shm_ipc.Factory.Ready.{Fresh, initialize-Fresh}
use shm_ipc.Factory.Granted.{Grants}
use shm_ipc.Segment.{mapped}
use shm_ipc.Channel.{Channel}
use shm_ipc.Fd.{ok, fails, einval, Os}

abbrev factory : RouterFactory
factory = record {
  control_fds = (3, 4);
  keepalive_fds = (5, 6);
  wakeup_fds = (7, 8);
  segment_1 = some 1;
  segment_2 = some 2;
  closed = [];
}

abbrev parent_args : CreateArgs
parent_args = record {
  is_parent = true;
  control_fd = 3;
  keepalive_fd = 5;
  wakeup_fds = (7, 8);
  read_segment = some 1;
  write_segment = some 2;
}

abbrev child_args : CreateArgs
child_args = record {
  is_parent = false;
  control_fd = 4;
  keepalive_fd = 6;
  wakeup_fds = (7, 8);
  read_segment = some 2;
  write_segment = some 1;
}

parent_run : (create_parent_router (λ _. true) factory).1 ≡ returns parent_args
unfolding create_parent_router
parent_run = refl

child_run : (create_child_router (λ _. true) factory).1 ≡ returns child_args
unfolding create_child_router
child_run = refl

routers-cross_run :
    (parent_args.read_segment ≡ child_args.write_segment)
    × (parent_args.write_segment ≡ child_args.read_segment)
    × (factory.control_fds ≡ (3, 4))
    × (factory.keepalive_fds ≡ (5, 6))
    × ((create_parent_router (λ _. true) factory).0.closed ≡ 6 ∷ 4 ∷ [])
    × ((create_child_router (λ _. true) factory).0.closed ≡ 5 ∷ 3 ∷ [])
routers-cross_run = routers-cross (λ _. true) factory parent_args child_args parent_run child_run

abbrev granting : Os
granting = record {
  answer = λ cs c. ok 0;
  answer_two = λ cs c. ok (length cs + 10, length cs + 11);
  answer_name = λ cs c. fails einval;
  calls = [];
  opened = [];
  errno = einval;
}

granting-Grants : Grants granting
granting-Grants = record {
  int = λ cs c. (0, refl);
  two = λ cs c. ((length cs + 10, length cs + 11), refl);
}

abbrev garbage : Channel
garbage = record {
  size = 1;
  write_threshold = 2;
  read_offset = 3;
  write_offset = 4;
  consumer_state = 5;
  mem = λ a. 6;
}

abbrev host : Host
host = record { mappings = []; channels = λ a. garbage; os = granting }

initialize-Fresh_example :
    (h' : Host) × (f : RouterFactory) × (initialize (mapped 65536) (mapped 131072) 8192 host
      ≡ (h', returns f))
    × (f.segment_1 ≡ some 65536)
    × (f.segment_2 ≡ some 131072)
    × Fresh (h'.channels 65536) 8192
    × Fresh (h'.channels 131072) 8192
    × (h'.mappings ≡ (131072, 8192) ∷ (65536, 8192) ∷ [])
    × (length h'.os.opened ≡ 6 + length host.os.opened)
initialize-Fresh_example =
    initialize-Fresh 65536 131072 8192 host refl refl (λ e. omega (arith, e)) refl (omega arith)
      (omega arith) granting-Grants
