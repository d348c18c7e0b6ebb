-- ===== src/Docker/Logs/Tests.antt =====
-- demuxLogs of backend/internal/docker/engine.go on two frames.
use compose_manager.Base.{◌≡◌, refl}
use compose_manager.Base.{List, [], ◌∷◌}
use compose_manager.Base.{arith}
use compose_manager.Base.{codes}
use compose_manager.Docker.Logs.{Frame, demux_logs, encode_frames, payloads, demux_logs-encode}

abbrev two : List Frame
two =
    record { stream = 1; payload = codes "up" } ∷ record { stream = 2; payload = codes "err" } ∷ []

demux_logs-encode_example : demux_logs (encode_frames two) ≡ codes "uperr"
unfolding payloads
demux_logs-encode_example = demux_logs-encode two ((refl, omega arith), ((refl, omega arith), tt))
