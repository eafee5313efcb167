-- ===== src/Sse/Tests.antt =====
-- A stream of one frame and the terminal frame.
use apiforge.Base.{◌≡◌, refl, [], ◌∷◌, ◌++◌}
use apiforge.Base.Text.{codes}
use apiforge.Sse.{frames, data_frame, done}
use apiforge.Sse.Framing.{frames-data_frame}

frames-data_frame_example :
    frames (data_frame (codes "{}") ++ done)
    ≡ record { event = []; «data» = codes "{}" } ∷ frames done
frames-data_frame_example = frames-data_frame (codes "{}") done (refl, (refl, tt))
