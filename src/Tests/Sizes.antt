-- ===== src/Tests/Sizes.antt =====
-- A transfer of two buffers with sizes of their own.
use memif_user_release.Tests.Board.{Board}
