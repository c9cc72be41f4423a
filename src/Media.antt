-- ===== src/Media.antt =====
-- services/media: win clips with their eviction and MP4 conversion, king clips, and the handlers.
pub mod Clip
pub mod Objects
pub mod Clips
pub mod Upload
pub mod Convert
pub mod Rows
pub mod Table
pub mod Evicted
pub mod Grown
pub mod Stored
pub mod Conversion
pub mod Tidy
pub mod Moves
pub mod Finality
pub mod Converted
pub mod KingClips
pub mod KingUpload
pub mod Reign
pub mod Hidden
pub mod Handlers
pub mod KingHandlers
pub mod Replies
pub mod Samples
mod Tests
