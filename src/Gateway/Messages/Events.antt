-- ===== src/Gateway/Messages/Events.antt =====
-- The events that `event_from_str` of src/shard.cpp knows.
use Prim.Native.String.{String}
use ekizu.Prelude.{List, [], ◌∷◌}

abbrev pub event_names : List String
event_names =
    "CHANNEL_CREATE" ∷ "CHANNEL_DELETE" ∷ "CHANNEL_PINS_UPDATE" ∷ "CHANNEL_UPDATE" ∷ "GUILD_BAN_ADD"
    ∷ "GUILD_BAN_REMOVE" ∷ "GUILD_CREATE" ∷ "GUILD_DELETE" ∷ "GUILD_EMOJIS_UPDATE"
    ∷ "GUILD_INTEGRATIONS_UPDATE" ∷ "GUILD_MEMBER_ADD" ∷ "GUILD_MEMBER_REMOVE"
    ∷ "GUILD_MEMBER_UPDATE" ∷ "GUILD_MEMBERS_CHUNK" ∷ "GUILD_ROLE_CREATE" ∷ "GUILD_ROLE_DELETE"
    ∷ "GUILD_ROLE_UPDATE" ∷ "GUILD_SCHEDULED_EVENT_CREATE" ∷ "GUILD_SCHEDULED_EVENT_DELETE"
    ∷ "GUILD_SCHEDULED_EVENT_UPDATE" ∷ "GUILD_SCHEDULED_EVENT_USER_ADD"
    ∷ "GUILD_SCHEDULED_EVENT_USER_REMOVE" ∷ "GUILD_STICKERS_UPDATE" ∷ "GUILD_UPDATE"
    ∷ "INTEGRATION_CREATE" ∷ "INTEGRATION_DELETE" ∷ "INTEGRATION_UPDATE" ∷ "INTERACTION_CREATE"
    ∷ "INVITE_CREATE" ∷ "INVITE_DELETE" ∷ "MESSAGE_CREATE" ∷ "MESSAGE_DELETE"
    ∷ "MESSAGE_DELETE_BULK" ∷ "MESSAGE_REACTION_ADD" ∷ "MESSAGE_REACTION_REMOVE"
    ∷ "MESSAGE_REACTION_REMOVE_ALL" ∷ "MESSAGE_REACTION_REMOVE_EMOJI" ∷ "MESSAGE_UPDATE"
    ∷ "PRESENCE_UPDATE" ∷ "READY" ∷ "RESUMED" ∷ "STAGE_INSTANCE_CREATE" ∷ "STAGE_INSTANCE_DELETE"
    ∷ "STAGE_INSTANCE_UPDATE" ∷ "THREAD_CREATE" ∷ "THREAD_DELETE" ∷ "THREAD_LIST_SYNC"
    ∷ "THREAD_MEMBER_UPDATE" ∷ "THREAD_MEMBERS_UPDATE" ∷ "THREAD_UPDATE" ∷ "TYPING_START"
    ∷ "USER_UPDATE" ∷ "VOICE_SERVER_UPDATE" ∷ "VOICE_STATE_UPDATE" ∷ "WEBHOOKS_UPDATE" ∷ []
